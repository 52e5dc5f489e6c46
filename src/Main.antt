-- ===== src/Main.antt =====
-- ISS-Notify.c: the interrupt routines, the rainbow and the main loop. The
-- USB library's two tasks at the end of the loop move bytes between the host and the stream; in
-- the model the host appends to the stream, and the tasks do nothing.
pub mod Rainbow
pub mod Rotation
pub mod Events
pub mod Points
pub mod Stray
pub mod Interrupts
pub mod Animation
pub mod Startup
pub mod Setup
pub mod Boot
pub mod UsbEvents
pub mod Command
pub mod Session
pub mod ClockSession
pub mod ColourSession
use iss_notify_firmware.Common.{
  ℕ, zero, suc, ◌+◌, ◌-◌, ◌*◌, ◌%◌, ◌^◌, Bool, true, false, Option, none, some, List, [], ◌∷◌, ◌++◌,
  Bytes, codes, length, get_elem?, set, u8, u16, u32, sub32, ltb, ◌==◌, if◌then◌else◌, ◌>>=◌,
  set_bit, clear_bit, replicate,
}
use iss_notify_firmware.Led.{Light, WhiteBalance, dark, led_init}
use iss_notify_firmware.Twi.{Twi}
use iss_notify_firmware.Rtc.{clear_alarm0}
use iss_notify_firmware.Stdio.{Format, lit, space, char, fscanf}
use iss_notify_firmware.Firmware.{Firmware, Eeprom, print, led_show}
use iss_notify_firmware.Commands.Settings.{paint, millis}
use iss_notify_firmware.Commands.Dispatch.{commands, dispatch}
use Rainbow.{rainbow_step}

-- The bit of EIMSK for INT3, from the device's header file.
abbrev pub int3_bit : ℕ
int3_bit = 3

-- "ISS%c\n"
abbrev pub command_format : Format
command_format = lit b'I' ∷ lit b'S' ∷ lit b'S' ∷ char ∷ space ∷ []

module _ {B : Type 0} where
  -- ISR(INT3_vect)
  unfoldable pub int3_isr : Firmware B → Firmware B
  int3_isr fw = record fw { eimsk = clear_bit fw.eimsk int3_bit; alarm = 1 }

  -- ISR(TIMER3_COMPA_vect)
  unfoldable pub timer3_isr : Firmware B → Firmware B
  timer3_isr fw = record fw { ms = u32 (fw.ms + 1) }

module _ {B : Type 0} (twi : Twi B) where
  -- Behind the `fscanf` of the main loop.
  unfoldable pub obey : List ℕ → Firmware B → Option (Firmware B)
  obey (c ∷ []) fw = dispatch twi commands c fw
  obey _ fw = some fw

  -- `if (fscanf(&USBSerialStream, "ISS%c\n", &c) == 1) …`
  unfoldable pub listen : Firmware B → Option (Firmware B)
  listen fw =
      let (vs, rest) = fscanf command_format fw.input in obey vs (record fw { input = rest })

  -- `if (alarm > 0) …`
  unfoldable pub handle_alarm : Firmware B → Firmware B
  handle_alarm fw =
      if ltb 0 fw.alarm
      then record fw {
        rtc = clear_alarm0 twi fw.rtc;
        pass = 1;
        eimsk = set_bit fw.eimsk int3_bit;
        alarm = 0;
      }
      else fw

  -- Only the first of the three lines below `if (reset_alarm > 0)` is under the test.
  unfoldable pub handle_reset : Firmware B → Firmware B
  handle_reset fw =
      let rtc = if ltb 0 fw.reset_alarm then clear_alarm0 twi fw.rtc else fw.rtc in
      record fw { rtc = rtc; reset_alarm = 0; eimsk = set_bit fw.eimsk int3_bit }

  -- One round of `while (1)`; `none` where a command has undefined behaviour or never ends, or
  -- the rainbow reads out of bounds.
  unfoldable pub iteration : Firmware B → Option (Firmware B)
  iteration fw = listen fw >>= λ fw₁.
      rainbow_step (handle_alarm fw₁) >>= λ fw₂. some (handle_reset (led_show fw₂))
