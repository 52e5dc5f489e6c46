-- ===== src/Tests/Replies.antt =====
-- Runs of the commands.
use iss_notify_firmware.Common.{◌≡◌, ◌≢◌, [], ◌∷◌, ◌++◌, refl, arith, codes, none, length}
use iss_notify_firmware.Rtc.{Time, get_time}
use iss_notify_firmware.Rtc.Clock.{IsStorable}
use iss_notify_firmware.Stdio.{fscanf, assign, scan_integer, match_lit}
use iss_notify_firmware.Firmware.{Firmware}
use iss_notify_firmware.Commands.Settings.{clock_format, time_text, set_clock}
use iss_notify_firmware.Commands.Passes.{count_format, set_passes}
use iss_notify_firmware.Commands.Passes.Upload.{upload_text}
use iss_notify_firmware.Commands.Passes.Overrun.{set_passes_overrun}
use iss_notify_firmware.Commands.ClockText.{set_clock_err}
use iss_notify_firmware.Tests.Device.{Chip, chip_bus, chip, some_passes, clock-IsReady, device}

abbrev upload : Firmware Chip
upload = device (upload_text some_passes (codes "ISSd"))

many : fscanf count_format (codes "11\n") ≡ (11 ∷ [], [])
unfolding fscanf assign scan_integer
many = refl

set_passes_overrun_example : set_passes (device (codes "11\n")) ≡ none
set_passes_overrun_example =
    set_passes_overrun (device (codes "11\n")) 11 [] many (omega arith) (omega arith)

abbrev pub midnight : Time
midnight = record { year = 12; month = 12; day = 31; hour = 0; minute = 0; second = 9 }

pub midnight-IsStorable : IsStorable midnight
midnight-IsStorable = record {
  year = omega arith;
  month = omega arith;
  day = omega arith;
  hour = omega arith;
  minute = omega arith;
  second = omega arith;
}

abbrev setting : Firmware Chip
setting = device (time_text midnight ++ codes "\n")

no_time : length (fscanf clock_format (codes "now")).0 ≢ 6
unfolding fscanf match_lit
no_time = omega arith

set_clock_err_example :
    ((set_clock chip_bus (device (codes "now"))).output ≡ [] ++ codes "err")
    × ((get_time chip_bus (set_clock chip_bus (device (codes "now"))).rtc).0
        ≡ record (get_time chip_bus (device (codes "now")).rtc).0 { second = 0 })
set_clock_err_example = set_clock_err chip_bus chip (device (codes "now")) no_time clock-IsReady
