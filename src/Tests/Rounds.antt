-- ===== src/Tests/Rounds.antt =====
-- Runs of the main loop and the interrupts.
use iss_notify_firmware.Common.{
  ℕ, ◌*◌, ◌%◌, ◌^◌, List, replicate, ◌≡◌, [], ◌∷◌, ◌++◌, refl, arith, some,
}
use iss_notify_firmware.Led.{dark, led}
use iss_notify_firmware.Led.Wire.{clocked_in}
use iss_notify_firmware.Main.Startup.{frames, rising, falling, startup-frames}
use iss_notify_firmware.Firmware.{Firmware}
use iss_notify_firmware.Main.{timer3_isr}
use iss_notify_firmware.Main.Animation.{startup, timer3, play, play-Performs}
use iss_notify_firmware.Main.Rainbow.{rainbow_step}
use iss_notify_firmware.Main.Rotation.{wheel, rainbow_step-wheel}
use iss_notify_firmware.Tests.Device.{Chip, pins-IsIdle, device}

rainbow_step-wheel_example :
    (fw' : Firmware Chip) × (rainbow_step (device []) ≡ some fw')
    × (fw'.show ≡ wheel 8)
    × (fw'.bow_rotate ≡ 0)
    × (fw'.previous_millis ≡ 100)
    × (fw'.leds ≡ led (device []).wb fw'.show (device []).leds)
rainbow_step-wheel_example =
    rainbow_step-wheel (device []) 106 refl refl (omega arith) (omega arith) (omega arith)
      (omega arith)

-- A product that leaves the `int` keeps its low 16 bits.
abbrev low_word : ℕ → ℕ → ℕ
low_word a b = a * b % 2 ^ 16

abbrev first_frames : List ℕ
first_frames = frames (device []).wb (rising low_word 100 0 ++ (falling low_word 99 ++ 0 ∷ []))

-- A millisecond passes in front of the first frame.
abbrev played : Firmware Chip
played = play (startup low_word) (timer3_isr (device []))

startup-frames_example :
    (clocked_in played.leds ≡ clocked_in (device []).leds ++ first_frames)
    × (played.show ≡ replicate 8 dark)
    × (played.output ≡ [])
startup-frames_example =
    startup-frames low_word (device []) played refl pins-IsIdle
      (timer3 (play-Performs (startup low_word) (timer3_isr (device []))))
