-- ===== src/Tests/Sessions.antt =====
-- Two rounds of the main loop on texts of the host.
use iss_notify_firmware.Common.{
  false, some, [], ◌++◌, Bytes, codes, replicate, ◌≡◌, refl, ap, ◌∙◌, arith, set_bit, ltb,
  if◌then◌else◌, ◌>>=◌,
}
use iss_notify_firmware.Stdio.Digits.{unsigned_decimal-NoSpace}
use iss_notify_firmware.Firmware.{Firmware, led_show, print}
use iss_notify_firmware.Commands.Settings.{time_text}
use iss_notify_firmware.Commands.Passes.{dump_mem}
use iss_notify_firmware.Commands.Passes.Upload.{upload_text, uploaded, dump_text, set_passes-upload}
use iss_notify_firmware.Commands.Dispatch.{Command, respond}
use iss_notify_firmware.Commands.Invariant.{IsWellFormed}
use iss_notify_firmware.Main.{int3_bit, timer3_isr, listen, iteration}
use iss_notify_firmware.Main.Events.{rainbow_step_off}
use iss_notify_firmware.Main.Command.{command_text, listen_command}
use iss_notify_firmware.Main.Session.{upload_session}
use iss_notify_firmware.Main.ClockSession.{clock_session}
use iss_notify_firmware.Main.ColourSession.{low_bytes, light, colour_session}
use iss_notify_firmware.Commands.Colours.{numbers_text}
use iss_notify_firmware.Led.{dark}
use iss_notify_firmware.Led.Wire.{clocked_in}
use iss_notify_firmware.Led.Packet.{encode, frame_fields}
use iss_notify_firmware.Main.Points.{
  Point, listening, testing_alarm, clearing, turning, showing, testing_reset, clearing_reset,
  lowering_reset, enabling_again, Running, at, statement, run, timer3,
}
use iss_notify_firmware.Main.Points.Lap.{Lap, begin, go_on, Round}
use iss_notify_firmware.Main.Points.Upload.{with_passes, interrupted_upload}
use iss_notify_firmware.Tests.Device.{
  Chip, chip_bus, chip, some_passes, device, device-IsWellFormed,
}
use iss_notify_firmware.Tests.Points.{amid}
use iss_notify_firmware.Tests.Replies.{midnight, midnight-IsStorable}

abbrev uploading : Firmware Chip
uploading = record (device (command_text b'u' (upload_text some_passes (command_text b'd' [])))) {
  do_rainbow = false;
}

uploading-IsWellFormed : IsWellFormed uploading
uploading-IsWellFormed = let w = device-IsWellFormed uploading.input in assumption w

upload_session_example :
    (fw₁ : Firmware Chip) × (fw₂ : Firmware Chip) × (iteration chip_bus uploading ≡ some fw₁)
    × (iteration chip_bus fw₁ ≡ some fw₂)
    × (fw₂.output ≡ ([] ++ codes "set") ++ dump_text 7 some_passes)
    × (fw₂.input ≡ [])
    × (fw₂.eeprom ≡ (uploaded uploading some_passes []).eeprom)
upload_session_example =
    upload_session chip_bus uploading some_passes [] refl (omega arith) (omega arith) tt
      uploading-IsWellFormed

abbrev setting : Firmware Chip
setting = device (command_text b'T' (time_text midnight ++ command_text b't' []))

clock_session_example :
    (fw₁ : Firmware Chip) × (fw₂ : Firmware Chip) × (iteration chip_bus setting ≡ some fw₁)
    × (iteration chip_bus fw₁ ≡ some fw₂)
    × (fw₂.output ≡ ([] ++ codes "set") ++ time_text midnight)
    × (fw₂.input ≡ [])
clock_session_example =
    clock_session chip_bus chip setting midnight [] refl midnight-IsStorable tt
      (device-IsWellFormed _)

-- 300 is 44 in a byte.
abbrev colouring : Firmware Chip
colouring =
    record (device (
      command_text b'W'
        (numbers_text 200 300 0 (command_text b'l' (numbers_text 65535 300 0 []))))) {
          do_rainbow = false;
        }

colouring-IsWellFormed : IsWellFormed colouring
colouring-IsWellFormed = let w = device-IsWellFormed colouring.input in assumption w

abbrev dark_frame : Bytes
dark_frame = encode (frame_fields (low_bytes 200 44 0) (replicate 8 dark))

abbrev pink_frame : Bytes
pink_frame = encode (frame_fields (low_bytes 200 44 0) (replicate 8 (light 65535 300 0)))

colour_session_example :
    (fw₁ : Firmware Chip) × (fw₂ : Firmware Chip) × (iteration chip_bus colouring ≡ some fw₁)
    × (iteration chip_bus fw₁ ≡ some fw₂)
    × (fw₂.eeprom ≡ record colouring.eeprom { wb = low_bytes 200 44 0 })
    × (fw₂.show ≡ replicate 8 (light 65535 300 0))
    × (clocked_in fw₂.leds
        ≡ clocked_in colouring.leds ++ ((dark_frame ++ dark_frame) ++ (pink_frame ++ pink_frame)))
    × (fw₂.output ≡ [] ++ codes "set")
    × (fw₂.input ≡ [])
colour_session_example =
    colour_session chip_bus colouring 200 300 0 65535 300 0 [] refl
      (omega arith, omega arith, omega arith) (omega arith, omega arith, omega arith) tt refl
      colouring-IsWellFormed

-- A round with no alarm and no rainbow, and a millisecond that passes.
abbrev round_end : Firmware Chip → Firmware Chip
round_end y =
    let z = led_show (timer3_isr y) in
    record z { reset_alarm = 0; eimsk = set_bit z.eimsk int3_bit }

module _ (fw y : Firmware Chip) (heard : listen chip_bus fw ≡ some y) (calm : y.alarm ≡ 0)
    (no_reset : y.reset_alarm ≡ 0) (dull : y.do_rainbow ≡ false) where
  goes-Lap :
      Lap chip_bus
        (at listening fw)
        (at enabling_again (record (led_show (timer3_isr y)) { reset_alarm = 0 }))
  unfolding statement timer3_isr led_show
  goes-Lap =
      let first =
        go_on {u = at testing_alarm y} begin
          (run (ap (λ m. m >>= λ x. some (at testing_alarm x)) heard)) tt
          (amid listening testing_alarm refl) in
      let tested =
        go_on {u = at turning y} first
          (run (ap (λ n. some (at (if ltb 0 n then clearing else turning) y)) calm)) tt
          (amid testing_alarm turning refl) in
      let ticked =
        go_on {u = at turning (timer3_isr y)} tested (timer3 refl) tt (amid turning turning refl) in
      let turned =
        go_on {u = at showing (timer3_isr y)} ticked
          (run (
            ap (λ m. m >>= λ x. some (at showing x))
              (rainbow_step_off chip_bus (timer3_isr y) dull)))
          tt (amid turning showing refl) in
      let shown =
        go_on {u = at testing_reset (led_show (timer3_isr y))} turned (run refl) tt
          (amid showing testing_reset refl) in
      let left =
        go_on {u = at lowering_reset (led_show (timer3_isr y))} shown
          (run (
            ap
              (λ n.
                some (
                  at (if ltb 0 n then clearing_reset else lowering_reset)
                    (led_show (timer3_isr y))))
              no_reset))
          tt (amid testing_reset lowering_reset refl) in
      go_on left (run refl) tt (amid lowering_reset enabling_again refl)

  goes-Round : Round chip_bus (at listening fw) (at listening (round_end y))
  unfolding statement
  goes-Round = record {
    last = at enabling_again (record (led_show (timer3_isr y)) { reset_alarm = 0 });
    lap = goes-Lap;
    at_last = refl;
    back = refl;
  }

abbrev told : Firmware Chip
told = uploaded uploading some_passes (command_text b'd' [])

heard_upload : listen chip_bus uploading ≡ some told
unfolding respond
heard_upload =
    listen_command chip_bus 4 b'u' Command.set_passes uploading
      (upload_text some_passes (command_text b'd' [])) refl refl (unsigned_decimal-NoSpace 2 _)
    ∙ set_passes-upload
        (record uploading { input = upload_text some_passes (command_text b'd' []) }) some_passes
        (command_text b'd' []) refl (omega arith) (omega arith) refl refl

abbrev asked : Firmware Chip
asked = record (round_end told) { input = [] }

heard_dump : listen chip_bus (round_end told) ≡ some (dump_mem asked)
unfolding respond led_show timer3_isr
heard_dump = listen_command chip_bus 5 b'd' Command.dump_mem (round_end told) [] refl refl tt

upload-Round : Round chip_bus (at listening uploading) (at listening (round_end told))
upload-Round = goes-Round uploading told heard_upload refl refl refl

dump-Round :
    Round chip_bus (at listening (round_end told)) (at listening (round_end (dump_mem asked)))
dump-Round =
    goes-Round (round_end told) (dump_mem asked) heard_dump
      (unfold dump_mem in unfold print in unfold led_show in unfold timer3_isr in refl)
      (unfold dump_mem in unfold print in unfold led_show in unfold timer3_isr in refl)
      (unfold dump_mem in unfold print in unfold led_show in unfold timer3_isr in refl)

interrupted_upload_example :
    ((v : Running Chip) × (statement chip_bus listening uploading ≡ some v))
    × ((v : Running Chip) × (statement chip_bus listening (round_end told) ≡ some v))
    × (Point.listening ≡ listening)
    × ((round_end (dump_mem asked)).output ≡ ([] ++ codes "set") ++ dump_text 7 some_passes)
    × ((round_end (dump_mem asked)).input ≡ [])
    × ((round_end (dump_mem asked)).eeprom ≡ with_passes some_passes uploading.eeprom)
interrupted_upload_example =
    interrupted_upload chip_bus uploading some_passes [] refl (omega arith) (omega arith) tt
      uploading-IsWellFormed begin upload-Round begin dump-Round
