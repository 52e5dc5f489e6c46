-- ===== src/Lib.antt =====
-- A model of the firmware of ISS-Notify, a lamp that shows when the space station passes overhead.
--
-- The host talks to the firmware over a USB serial stream; the main loop (ISS-Notify.c) reads a
-- command of the form "ISSx" from it and calls the function for the letter x (commands.h,
-- commands.c), which replies on the same stream. The functions set and read the EEPROM, the
-- real-time clock (hardware/rtc.c, over the I2C library library/twi.c) and the lights
-- (hardware/led.c). An alarm of the clock raises INT3; a timer counts milliseconds in
-- TIMER3_COMPA.
--
-- Files, and what they model:
-- - Common, with its children: lists, Boolean tests, machine words (a cast is `% 2 ^ w`), bits.
-- - Led: hardware/led.c and led.h. The port is a record with the values that it had before, so
--   that the bits on the wire can be read off it; the functions have the source's names. Led/Wire,
--   Led/Packet and Led/Frame say what the two chips receive.
-- - Twi: the interface of library/twi.c. Its two calls are parameters over an abstract bus.
-- - Rtc: hardware/rtc.c. The static variables and the bus are the state. Rtc/Chip has the
--   hypotheses on the chip behind the bus, those of a memory of registers with an address pointer;
--   Tests/Device has a bus that satisfies them.
-- - Stdio: what the firmware uses of `fscanf` and `fprintf`. The stream does not block: at the end
--   of the list of bytes a scan ends as at an end of file.
-- - Board: hardware/charge.c and hardware/analog.c, and the port writes of `RTC_Init`. The
--   converter's registers are parameters, as are the bit numbers of the device's header file.
-- - Firmware: the globals, the EEPROM variables, the registers and the stream, in one record.
-- - Commands: commands.c. Settings and Passes have the functions under their names; what is behind
--   the test of `fscanf` is a function of the values that it has assigned (set_wb_with). Dispatch
--   has the table of commands.h and the search in it.
-- - Main: the interrupt routines, the start-up animation and the main loop of ISS-Notify.c;
--   Main/Rainbow has the rainbow, Main/Animation the start-up animation, statement by statement, with
--   the interrupts that `sei()` lets through, Main/Setup has `Setup_Hardware` and `RTC_Init`, Main/UsbEvents the
--   handlers of the USB library's events. A round of the loop is `iteration`. Main/Points has the
--   loop statement by statement, and the steps: a statement, an interrupt, the host; below it stands
--   what holds however they are interleaved. Main/Events has the coarser steps of whole rounds.
--   Main/Command has the round on the text of a command; Session, ClockSession and ColourSession
--   below Main are rounds on what a host sends.
-- - Descriptors: Descriptors.c and Descriptors.h, the bytes by which the USB host knows the device,
--   and `CALLBACK_USB_GetDescriptor`; Descriptors/Layout has the library's constants, which are
--   parameters, and the layout of its structures.
-- - Loader: HostLoaderApp/hid_bootloader_cli.c, the program that puts a new firmware on the device.
--   The root has the memory image; Loader/Hex the reader of Intel hex files over Loader/Sscanf,
--   which is `sscanf` for "%02x" and "%04x"; Loader/Options the command line; Loader/Program the
--   loop that programs the image block by block; Loader/Main the main function with the loop that
--   waits for the device, over the interface `Host` of one USB back end. Libusb, Uhid, Iokit and
--   Win32 below Loader are the four back ends, each over an interface of the system's calls.
--   Loader/Main/Waiting is about the loop that waits, and Loader/Main/Keeps carries what the device's
--   functions keep true through the main function; the module Closed below each back end applies it.
-- - Animations: the test program Test/animations. Driver has its LED driver, whose port and pins
--   are those of Led, and Show the frames of its main loop.
-- - Blink: the test program Test/blink. UsbText: hardware/usb.c, which the firmware does not call.
-- - Tests: concrete runs.
--
-- Bounds and fuel. The loop of set_passes runs on a `uint8_t` index; its fuel of 256 rounds is
-- enough for any count that the index can reach, and with a greater count the loop never ends. A
-- function returns `none` for undefined behaviour (an access out of bounds) and for such a loop.
-- The converter is polled on fuel, with any number of rounds. The loader's programming loop needs
-- one round more of fuel than it has blocks. Numbers are printed with ten digits of fuel, enough
-- for 32 bits. Where the product of the animation leaves the 16-bit `int`, what the compiled
-- program has for it is a parameter. What an uninitialised array holds is a field of the state,
-- `stack`, and so arbitrary.
--
-- The loop over the lines of a hex file has one round more than the file has bytes; a line's data
-- loop has 256 rounds, behind which the code returns. The loop that waits for the device has any
-- number of rounds. `none` is undefined behaviour in the reader, `die` in the UHID back end, and in
-- the Win32 back end a search of more rounds than its fuel.
--
-- Not modelled: LUFA, library/twi.c and library/usb_serial.c, which are other projects' libraries;
-- delays; an interrupt within a statement of the main loop, where a command, which reads the
-- milliseconds at most once, is one statement (a read of the 32-bit counter in four bytes is one
-- read here); and what the boot loader's host application prints.
pub mod Common
pub mod Led
pub mod Twi
pub mod Rtc
pub mod Stdio
pub mod Board
pub mod Firmware
pub mod Commands
pub mod Main
pub mod Loader
pub mod Descriptors
pub mod Animations
pub mod Blink
pub mod UsbText
pub mod Tests
