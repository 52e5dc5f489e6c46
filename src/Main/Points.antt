-- ===== src/Main/Points.antt =====
-- The main loop of ISS-Notify.c statement by statement, with the interrupts between any two. A
-- statement is one step: a command touches none of the variables that the interrupt routines write
-- but `ms`, which is read once. The routines do not interrupt one another.
pub mod Alone
pub mod Invariant
pub mod Alarm
pub mod Served
pub mod Dropped
pub mod Stray
pub mod Lap
pub mod Upload
use iss_notify_firmware.Common.{
  ℕ, zero, suc, Bool, true, false, Option, none, some, ◌++◌, Bytes, ltb, ◌>>=◌, bit, set_bit, ◌≡◌,
  if◌then◌else◌,
}
use iss_notify_firmware.Twi.{Twi}
use iss_notify_firmware.Rtc.{clear_alarm0}
use iss_notify_firmware.Firmware.{Firmware, led_show}
use iss_notify_firmware.Main.{int3_bit, int3_isr, timer3_isr, listen}
use iss_notify_firmware.Main.Rainbow.{rainbow_step}

-- The statement that is next.
pub data Point : Type 0 where
  listening testing_alarm clearing noting enabling lowering : Point
  turning showing testing_reset clearing_reset lowering_reset enabling_again : Point

pub record Running (B : Type 0) : Type 0 where
  pub point : Point
  pub firmware : Firmware B

abbrev pub at : {B : Type 0} → Point → Firmware B → Running B
at p fw = record { point = p; firmware = fw }

-- Is it the first of the loop?
abbrev pub starts : Point → Bool
starts listening = true
starts _ = false

module _ {B : Type 0} (twi : Twi B) where
  -- `none` is what it is for `iteration`. The USB library's tasks do nothing.
  unfoldable pub statement : Point → Firmware B → Option (Running B)
  statement listening fw = listen twi fw >>= λ fw'. some (at testing_alarm fw')
  statement testing_alarm fw = some (at (if ltb 0 fw.alarm then clearing else turning) fw)
  statement clearing fw = some (at noting (record fw { rtc = clear_alarm0 twi fw.rtc }))
  statement noting fw = some (at enabling (record fw { pass = 1 }))
  statement enabling fw = some (at lowering (record fw { eimsk = set_bit fw.eimsk int3_bit }))
  statement lowering fw = some (at turning (record fw { alarm = 0 }))
  statement turning fw = rainbow_step fw >>= λ fw'. some (at showing fw')
  statement showing fw = some (at testing_reset (led_show fw))
  statement testing_reset fw =
      some (at (if ltb 0 fw.reset_alarm then clearing_reset else lowering_reset) fw)
  statement clearing_reset fw =
      some (at lowering_reset (record fw { rtc = clear_alarm0 twi fw.rtc }))
  statement lowering_reset fw = some (at enabling_again (record fw { reset_alarm = 0 }))
  statement enabling_again fw =
      some (at listening (record fw { eimsk = set_bit fw.eimsk int3_bit }))

  pub data Step (s t : Running B) : Type 0 where
    run : statement s.point s.firmware ≡ some t → Step s t
    -- INT3 is served where EIMSK lets it through.
    int3 :
        bit s.firmware.eimsk int3_bit ≡ 1
        → t ≡ record s { firmware = int3_isr s.firmware }
        → Step s t
    timer3 : t ≡ record s { firmware = timer3_isr s.firmware } → Step s t
    host :
        (text : Bytes)
        → t ≡ record s { firmware = record s.firmware { input = s.firmware.input ++ text } }
        → Step s t

  pub data Reach (s : Running B) : Running B → Type 0 where
    here : Reach s s
    next : {t u : Running B} → Reach s t → Step t u → Reach s u

  -- The same within a round: the last statement of the loop is not passed.
  pub data Within (s : Running B) : Running B → Type 0 where
    start : Within s s
    later :
        {t u : Running B}
        → Within s t
        → Step t u
        → (t.point ≡ enabling_again → u.point ≡ enabling_again)
        → Within s u

  -- Statements with no interrupt between them, to the end of the round.
  unfoldable pub alone : ℕ → Running B → Option (Running B)
  alone zero r = some r
  alone (suc n) r = statement r.point r.firmware >>= λ r'. elim (starts r'.point) [
    | true ↦ some r'
    | false ↦ alone n r'
  ]
