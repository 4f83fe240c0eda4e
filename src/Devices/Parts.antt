-- ===== src/Devices/Parts.antt =====
-- src/devdescr.cc: the table of the devices, in its order.
pub mod Atmega16
pub mod Atmega323
pub mod Atmega128
pub mod Atmega644
pub mod Atmega329
pub mod Atmega640
pub mod Atmega2561
pub mod Attiny2313
pub mod At90pwm3b
pub mod Attiny45
pub mod Atmega32c1
pub mod At90pwm216
pub mod At90usb646
pub mod Atmega165p
pub mod Atmega328p
pub mod Atmega32u4
pub mod Atmega88p
pub mod Atxmega128a1revd
use jtag_js.Base.{List, [], ◌∷◌}
use jtag_js.Devices.{DeviceDef, terminator}
use jtag_js.Devices.Parts.Atmega16.{atmega16, atmega162, atmega169}
use jtag_js.Devices.Parts.Atmega323.{atmega323, atmega32, atmega64}
use jtag_js.Devices.Parts.Atmega128.{atmega128, at90can128, atmega164p, atmega324p}
use jtag_js.Devices.Parts.Atmega644.{atmega644, atmega325, atmega3250, atmega645, atmega6450}
use jtag_js.Devices.Parts.Atmega329.{atmega329, atmega3290, atmega649, atmega6490}
use jtag_js.Devices.Parts.Atmega640.{atmega640, atmega1280, atmega1281, atmega2560}
use jtag_js.Devices.Parts.Atmega2561.{atmega2561, atmega48, atmega88, atmega168, attiny13}
use jtag_js.Devices.Parts.Attiny2313.{attiny2313, at90pwm2, at90pwm3, at90pwm2b}
use jtag_js.Devices.Parts.At90pwm3b.{at90pwm3b, attiny24, attiny44, attiny84, attiny25}
use jtag_js.Devices.Parts.Attiny45.{attiny45, attiny85, attiny261, attiny461, attiny861}
use jtag_js.Devices.Parts.Atmega32c1.{atmega32c1, atmega32m1, at90can32, at90can64}
use jtag_js.Devices.Parts.At90pwm216.{at90pwm216, at90pwm316, at90usb1287, at90usb162}
use jtag_js.Devices.Parts.At90usb646.{at90usb646, at90usb647, atmega1284p, atmega165}
use jtag_js.Devices.Parts.Atmega165p.{atmega165p, atmega168p, atmega16hva, atmega3250p, atmega325p}
use jtag_js.Devices.Parts.Atmega328p.{atmega328p, atmega3290p, atmega329p, atmega32hvb}
use jtag_js.Devices.Parts.Atmega32u4.{atmega32u4, atmega406, atmega48p, atmega644p}
use jtag_js.Devices.Parts.Atmega88p.{atmega88p, attiny167, attiny43u, attiny48, attiny88}
use jtag_js.Devices.Parts.Atxmega128a1revd.{atxmega128a1revd, atxmega128a1, atmega128rfa1}

abbrev pub device_definitions : List DeviceDef
device_definitions =
    atmega16 ∷ atmega162 ∷ atmega169 ∷ atmega323 ∷ atmega32 ∷ atmega64 ∷ atmega128 ∷ at90can128
    ∷ atmega164p ∷ atmega324p ∷ atmega644 ∷ atmega325 ∷ atmega3250 ∷ atmega645 ∷ atmega6450
    ∷ atmega329 ∷ atmega3290 ∷ atmega649 ∷ atmega6490 ∷ atmega640 ∷ atmega1280 ∷ atmega1281
    ∷ atmega2560 ∷ atmega2561 ∷ atmega48 ∷ atmega88 ∷ atmega168 ∷ attiny13 ∷ attiny2313 ∷ at90pwm2
    ∷ at90pwm3 ∷ at90pwm2b ∷ at90pwm3b ∷ attiny24 ∷ attiny44 ∷ attiny84 ∷ attiny25 ∷ attiny45
    ∷ attiny85 ∷ attiny261 ∷ attiny461 ∷ attiny861 ∷ atmega32c1 ∷ atmega32m1 ∷ at90can32 ∷ at90can64
    ∷ at90pwm216 ∷ at90pwm316 ∷ at90usb1287 ∷ at90usb162 ∷ at90usb646 ∷ at90usb647 ∷ atmega1284p
    ∷ atmega165 ∷ atmega165p ∷ atmega168p ∷ atmega16hva ∷ atmega3250p ∷ atmega325p ∷ atmega328p
    ∷ atmega3290p ∷ atmega329p ∷ atmega32hvb ∷ atmega32u4 ∷ atmega406 ∷ atmega48p ∷ atmega644p
    ∷ atmega88p ∷ attiny167 ∷ attiny43u ∷ attiny48 ∷ attiny88 ∷ atxmega128a1revd ∷ atxmega128a1
    ∷ atmega128rfa1 ∷ terminator ∷ []
