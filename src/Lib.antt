-- ===== src/Lib.antt =====
-- Verification of avarice, the program that connects gdb to an Atmel JTAG ICE.
--
-- The program has two sides. Towards gdb, src/remote.cc reads packets, runs the command of each on the
-- JTAG box, and replies. Towards the box there are two implementations of the virtual functions of
-- src/jtag.h: the mkI (src/jtag1.h, jtagio.cc, jtagbp.cc, jtagrw.cc, jtagrun.cc, jtagmisc.cc), and the
-- mkII (src/jtag2.h, jtag2io.cc, jtag2bp.cc, jtag2rw.cc, jtag2prog.cc, jtag2run.cc, jtag2misc.cc). Both
-- write to and read from the box through src/jtaggeneric.cc; the mkII frames its messages with the CRC
-- of src/crc16.c, and all use the encodings of src/utils.cc.
--
-- Which file models what:
--   Base         the names, lists and bit operations that all others share;
--   Crc          src/crc16.c: crcsum, crcverify, crcappend;
--   Encoding     src/utils.cc: words, hexadecimal text, escaped memory;
--   Port         src/jtaggeneric.cc: timeout_read and safewrite, and the monad of computations on the
--                line;
--   Mk2/Frame    sendFrame and recvFrame of src/jtag2io.cc, the state machine with its states as in
--                the source;
--   Mk2/Command  recv, sendJtagCommand, doJtagCommand and doSimpleJtagCommand of src/jtag2io.cc, and
--                src/jtag2misc.cc;
--   Mk2/Breakpoints
--                src/jtag2bp.cc: the table (Table), the layout into slots (Layout), the update of the
--                ICE (Update), adding and deleting;
--   Mk2/Memory   src/jtag2rw.cc, and the programming mode of src/jtag2prog.cc;
--   Mk2/Run      src/jtag2run.cc: the program counter, events (their names in Names), and running
--                the target;
--   Mk1/Io, Mk1/Memory, Mk1/Breakpoints
--                src/jtagio.cc with src/jtagmisc.cc and parts of src/jtagrun.cc, src/jtagrw.cc, and
--                src/jtagbp.cc;
--   Gdb          src/remote.cc: packets (Packets), the arguments of commands (Parse), reports
--                (Reports), the query for I/O registers (IoRegs), the other commands (Commands), and
--                the dispatch (Talk); the box is the interface JtagIce;
--   Mk2/Setup    the second half of src/jtag2io.cc: bit rates, signing on, detecting and describing the
--                device, initJtagBox and initJtagOnChipDebugging, with changeLocalBitRate of
--                src/jtagserial.cc; Mk2/Command/Dialogue has what is said in several commands;
--   Devices      src/jtag_device_desc.h and the macros of src/utils.hh; Devices/Parts has the table of
--                src/devdescr.cc, Devices/Registers those of src/ioreg.cc, Devices/Lookup the loops over
--                the table in deviceAutoConfig and initJtagBox;
--   Image        jtag_flash_image of src/jtaggeneric.cc; the box is the interface Programmer;
--                Image/Sections has the image of a file and downloadToTarget of src/jtag2prog.cc;
--   Mk2/Programmer
--                the mkII as the box of Image and Fuses; in its child Writes for writing fuses;
--   Mk1/Setup    the rest of src/jtagio.cc, with the programming mode of src/jtagprog.cc;
--   Fuses        jtagWriteFuses, jtagReadFuses, jtagWriteLockBits and jtagReadLockBits of
--                src/jtaggeneric.cc;
--   Tests        runs on concrete inputs.
-- The children of these modules hold their proofs.
--
-- How state is modelled. A computation on the line takes the record Link, which holds the events that
-- reads will meet, the results that writes will have, what was written, and the sequence number of the
-- mkII and the bit rates of the local port, and gives an Outcome: a result with the new Link, a failed
-- check, a use of a null pointer, a loop of the model that has run out of rounds, or the loop of
-- timeout_read on a line that is hung up (hung), which never ends. The calls of termios are taken
-- to succeed, and what tcflush drops is not among the events. GdbRemote is the record Gdb, and its outcomes are those
-- of Run, a write behind remcomOutBuffer among them for the read of memory. The table of breakpoints and the memory caches are arguments and results. C integers are
-- numbers with their wrap-around written out where it can occur; an int that may be negative is its
-- 32-bit pattern.
--
-- Rounds. recvFrame, recv and getpacket are followed for one round more than there is input, the loops
-- of doJtagCommand for one round more than MAX_JTAG_COMM_ATTEMPS, and parseEvents for one more than
-- there is text; each round but the last uses up input, tries or text. The loops of eventLoop and of
-- handleInterrupt are not bounded by anything in the source, and take their number of rounds as an
-- argument. The loops over the pages of an image have one round for each address up to its last, and a
-- page has an address at least; synchroniseAt has its limit of three tries.
--
-- Not modelled: what comes out of the box and of gdb is data, and the calls that open and configure
-- lines, libusb, BFD, the DWARF reader and the JavaScript bindings are left out; so are messages to the
-- console, the options of main.cc, downloadToTarget of the mkI, and what its jtagContinue does. A
-- table of C is filled with zeros behind what is listed, and so is a list here.
mod Base
mod Tests
pub mod Crc
pub mod Devices
pub mod Encoding
pub mod Port
pub mod Mk2
pub mod Gdb
pub mod Image
pub mod Fuses
pub mod Mk1
