-- ===== src/Firmware.antt =====
-- The state of the firmware that commands.c and ISS-Notify.c share: the globals of ISS-Notify.c,
-- eeproms.h, structs.h and led.h, the registers that the code writes, the USB serial stream and
-- the clock driver over an abstract I2C bus `B`. The main program, the commands and the interrupt
-- routines are functions on it.
use iss_notify_firmware.Common.{ℕ, Bool, List, ◌++◌, Bytes}
use iss_notify_firmware.Led.{LedPins, WhiteBalance, Light, led}
use iss_notify_firmware.Rtc.{Rtc}

-- `ipass`
pub record Pass : Type 0 where
  pub time : ℕ
  pub duration : ℕ

abbrev pub max_pass : ℕ
max_pass = 10

-- The EEMEM variables: NonVolatileColor, NonVolatile_*_WB, NumOfStoredISSPasses, StoredISSPasses.
pub record Eeprom : Type 0 where
  pub color : ℕ
  pub wb : WhiteBalance
  pub num_passes : ℕ
  pub passes : List Pass

pub record Firmware (B : Type 0) : Type 0 where
  -- The USB serial stream: the bytes that the host has sent and those sent back.
  pub input : Bytes
  pub output : Bytes
  -- The variables that interrupts update.
  pub reset_alarm : ℕ
  pub alarm : ℕ
  pub pass : ℕ
  pub ms : ℕ
  -- The globals.
  pub do_rainbow : Bool
  pub previous_millis : ℕ
  pub bow_rotate : ℕ
  pub show : List Light
  pub wb : WhiteBalance
  pub eeprom : Eeprom
  -- What the stack happens to hold where `set_passes` has its array `block`.
  pub stack : List Pass
  -- The interrupt mask register EIMSK, the LED port and the clock driver.
  pub eimsk : ℕ
  pub leds : LedPins
  pub rtc : Rtc B

module _ {B : Type 0} where
  -- `fputs` and `fprintf`.
  unfoldable pub print : Bytes → Firmware B → Firmware B
  print text fw = record fw { output = fw.output ++ text }

  -- `led(show)`
  unfoldable pub led_show : Firmware B → Firmware B
  led_show fw = record fw { leds = led fw.wb fw.show fw.leds }
