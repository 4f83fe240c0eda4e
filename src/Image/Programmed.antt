-- ===== src/Image/Programmed.antt =====
-- src/jtaggeneric.cc, `jtag_flash_image`: what programming an image writes to the box.
pub mod Complete
use jtag_js.Base.{◌-◌, length, get_or, ◌⊎◌, Bytes}
use jtag_js.Image.{Image, page_bytes}
