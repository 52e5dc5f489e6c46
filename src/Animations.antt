-- ===== src/Animations.antt =====
-- The test program Test/animations: ISS-Notify.c and its own LED driver, hardware/led.c and led.h,
-- for a board with other LED chips.
pub mod Driver
pub mod Show
pub mod Wire
pub mod Planes
pub mod Turning
pub mod Film
