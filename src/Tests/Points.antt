-- ===== src/Tests/Points.antt =====
-- Runs of the main loop statement by statement.
use iss_notify_firmware.Common.{
  [], ◌∷◌, ◌++◌, ◌≡◌, ◌⊎◌, inl, refl, arith, codes, Bytes, some, bit, Bool, true, false, ap,
  set_bit,
}
use iss_notify_firmware.Rtc.{clear_alarm0}
use iss_notify_firmware.Rtc.Chip.{registers_of}
use iss_notify_firmware.Stdio.{fscanf, match_lit}
use iss_notify_firmware.Firmware.{Firmware}
use iss_notify_firmware.Commands.Invariant.{IsWellFormed}
use iss_notify_firmware.Main.{int3_bit, int3_isr, timer3_isr, obey, listen}
use iss_notify_firmware.Main.Points.{
  Point, listening, testing_alarm, clearing, noting, enabling, lowering, turning, enabling_again,
  Running, at, statement, run, int3, timer3, host, Reach, here, next, Within, start, later,
}
use iss_notify_firmware.Main.Points.Invariant.{points-IsWellFormed}
use iss_notify_firmware.Main.Points.Alarm.{points-hear}
use iss_notify_firmware.Main.Points.Served.{points-cleared}
use iss_notify_firmware.Main.Points.Dropped.{points_dropped}
use iss_notify_firmware.Main.Points.Stray.{points-stray}
use iss_notify_firmware.Tests.Device.{Chip, chip_bus, chip, device, device-IsWellFormed}

-- A stray byte, a firmware that shows no rainbow, and INT3 enabled.
abbrev stray : Firmware Chip
stray = record (device (codes "QISSa\n")) { do_rainbow = false; eimsk = 8 }

stray-IsWellFormed : IsWellFormed stray
stray-IsWellFormed = let w = device-IsWellFormed (codes "QISSa\n") in assumption w

-- The loop begins, the alarm's interrupt comes in front of its test, and a millisecond passes.
abbrev told : Running Chip
told = at testing_alarm (
    let served = timer3_isr (int3_isr stray) in
    record served { input = served.input ++ codes "ISSt\n" })

listened : statement chip_bus listening stray ≡ some (at testing_alarm stray)
unfolding statement listen obey fscanf match_lit
listened = refl

begun : Reach chip_bus (at listening stray) told
begun =
    next (next (next (next here (run listened)) (int3 refl refl)) (timer3 refl))
      (host (codes "ISSt\n") refl)

points-IsWellFormed_example : IsWellFormed told.firmware
points-IsWellFormed_example = points-IsWellFormed chip_bus begun stray-IsWellFormed

points-stray_example :
    ((more : Bytes) × (told.firmware.input ≡ b'Q' ∷ (codes "ISSa\n" ++ more))
      × (told.firmware.output ≡ []))
    × ((u : Running Chip) × (statement chip_bus testing_alarm told.firmware ≡ some u))
points-stray_example =
    points-stray chip_bus b'Q' (codes "ISSa\n") begun refl (omega arith) stray-IsWellFormed

points-hear_example : (bit (timer3_isr stray).eimsk int3_bit ≡ 1) ⊎ ((timer3_isr stray).alarm ≡ 1)
points-hear_example =
    points-hear chip_bus {s = at listening stray} {t = at listening (timer3_isr stray)}
      (next here (timer3 refl)) (inl refl) refl

-- A round that begins with the flag up, and an interrupt in the middle of the handling.
abbrev alarmed : Firmware Chip
alarmed = record stray { alarm = 1 }

abbrev cleared : Firmware Chip
cleared = timer3_isr (record alarmed { rtc = clear_alarm0 chip_bus alarmed.rtc })

abbrev handled : Firmware Chip
handled = record cleared { pass = 1; eimsk = set_bit cleared.eimsk int3_bit; alarm = 0 }

alarm_heard : statement chip_bus listening alarmed ≡ some (at testing_alarm alarmed)
unfolding statement listen obey fscanf match_lit
alarm_heard = refl

-- Is it the last statement of the loop?
abbrev pub ends : Point → Bool
ends enabling_again = true
ends _ = false

pub amid : (p q : Point) → ends p ≡ false → p ≡ enabling_again → q ≡ enabling_again
amid p q open_end e = let last : ends p ≡ true = ap ends e in absurd (cc)

handling : Within chip_bus (at listening alarmed) (at turning handled)
unfolding statement
handling =
    let listened =
      later {u = at testing_alarm alarmed} start (run alarm_heard)
        (amid listening testing_alarm refl) in
    let tested =
      later {u = at clearing alarmed} listened (run refl) (amid testing_alarm clearing refl) in
    let spoken =
      later {u = at noting (record alarmed { rtc = clear_alarm0 chip_bus alarmed.rtc })} tested
        (run refl) (amid clearing noting refl) in
    let ticked = later {u = at noting cleared} spoken (timer3 refl) (amid noting noting refl) in
    let noted =
      later {u = at enabling (record cleared { pass = 1 })} ticked (run refl)
        (amid noting enabling refl) in
    let enabled =
      later {u = at lowering (record cleared { pass = 1; eimsk = set_bit cleared.eimsk int3_bit })}
        noted (run refl) (amid enabling lowering refl) in
    later enabled (run refl) (amid lowering turning refl)

points-cleared_example :
    (registers_of chip_bus chip handled.rtc 0x0d ≡ 0)
    × (registers_of chip_bus chip handled.rtc 7 ≡ 0x80)
    × (handled.pass ≡ 1)
points-cleared_example =
    points-cleared chip_bus chip handling (let w = stray-IsWellFormed in assumption w) refl refl
      refl

abbrev dropped : Firmware Chip
dropped = record (int3_isr stray) { alarm = 0 }

lowered : statement chip_bus lowering (int3_isr stray) ≡ some (at turning dropped)
unfolding statement
lowered = refl

points_dropped_example :
    (dropped.alarm ≡ 0) × (bit dropped.eimsk int3_bit ≡ 0) × (dropped.rtc ≡ stray.rtc)
points_dropped_example = points_dropped chip_bus stray refl lowered start
