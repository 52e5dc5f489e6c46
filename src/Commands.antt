-- ===== src/Commands.antt =====
-- commands.c and commands.h: the commands that the host sends over the USB serial stream.
pub mod Settings
pub mod Passes
pub mod Dispatch
pub mod ClockText
pub mod Colours
pub mod Lookup
pub mod Invariant
pub mod Flags
