-- ===== src/Stdio.antt =====
-- The parts of the C library's stdio.h that the firmware uses over the USB serial stream: `fscanf`
-- with the conversions %d, %u, %lu and %c, and the conversions of `fprintf`. A stream is the list
-- of the bytes that are there; past its end a read meets the end of file. An `int` has 16 bits and
-- a signed value is kept as its bit pattern.
pub mod Scan
pub mod Print
pub mod Digits
pub mod Fields
pub use Scan.{Directive, lit, space, int16, uint16, uint32, char, Format}
unfoldable pub use Scan.{fscanf, match_lit, assign, scan_char, skip_space, scan_integer}
unfoldable pub use Print.{two_digits, signed_decimal, unsigned_decimal, digits}
