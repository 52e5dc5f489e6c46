-- ===== src/Tests/Drivers.antt =====
-- Runs of the LED driver and the clock driver.
use iss_notify_firmware.Common.{◌≡◌, List, [], ◌∷◌, refl, arith, inl, inr, replicate}
use iss_notify_firmware.Led.{Light, led}
use iss_notify_firmware.Led.Wire.{Wrote}
use iss_notify_firmware.Led.Packet.{encode, frame_fields, read_fields, read_fields-encode}
use iss_notify_firmware.Led.Frame.{led-frame}
use iss_notify_firmware.Rtc.{Time, get_time, set_time, set_alarm0}
use iss_notify_firmware.Rtc.Chip.{registers_of}
use iss_notify_firmware.Rtc.Clock.{IsStorable, get_time-set_time}
use iss_notify_firmware.Rtc.Alarm.{alarm_in, set_alarm0_lem}
use iss_notify_firmware.Rtc.Failure.{get_time_mute}
use iss_notify_firmware.Tests.Device.{
  chip_bus, chip, mute_bus, pins, pins-IsIdle, balance, clock, clock_over, clock-IsReady,
}

abbrev lights : List Light
lights =
    record { blue = 65535; green = 1; red = 0 }
    ∷ replicate 7 (record { blue = 2; green = 40000; red = 3 })

abbrev launch : Time
launch = record { year = 12; month = 5; day = 26; hour = 23; minute = 59; second = 58 }

launch-IsStorable : IsStorable launch
launch-IsStorable = record {
  year = omega arith;
  month = omega arith;
  day = omega arith;
  hour = omega arith;
  minute = omega arith;
  second = omega arith;
}

led-frame_example : Wrote pins (encode (frame_fields balance lights)) (led balance lights pins)
led-frame_example = led-frame balance lights pins refl pins-IsIdle

six_and_three : read_fields (6 ∷ 3 ∷ []) (encode ((6, 37) ∷ (3, 9) ∷ [])) ≡ 37 ∷ 1 ∷ []
six_and_three = read_fields-encode ((6, 37) ∷ (3, 9) ∷ [])

get_time-set_time_example :
    ((get_time chip_bus (set_time chip_bus launch clock)).0 ≡ launch)
    × (registers_of chip_bus chip (set_time chip_bus launch clock) 7
        ≡ registers_of chip_bus chip clock 7)
get_time-set_time_example =
    get_time-set_time chip_bus chip launch clock 7 clock-IsReady launch-IsStorable
      (inr (omega arith))

set_alarm0_lem_example :
    (alarm_in (registers_of chip_bus chip (set_alarm0 chip_bus launch clock)) ≡ launch)
    × (registers_of chip_bus chip (set_alarm0 chip_bus launch clock) 0x0d ≡ 0x73)
    × (registers_of chip_bus chip (set_alarm0 chip_bus launch clock) 7 ≡ 0x10)
    × (registers_of chip_bus chip (set_alarm0 chip_bus launch clock) 2 ≡ 2)
set_alarm0_lem_example =
    set_alarm0_lem chip_bus chip launch clock 2 clock-IsReady launch-IsStorable (inl (omega arith))

get_time_mute_example :
    (get_time mute_bus (clock_over tt)).0
    ≡ record { year = 0; month = 0; day = 0; hour = 0; minute = 0; second = 0 }
get_time_mute_example = get_time_mute mute_bus (clock_over tt) (inl (λ b bytes wait. omega arith))
