-- ===== src/Main/Points/Invariant.antt =====
-- The invariant of the state, at every statement.
use iss_notify_firmware.Common.{Option, none, some, subst, sym, arith, ◌>>=◌}
use iss_notify_firmware.Twi.{Twi}
use iss_notify_firmware.Rtc.{clear_alarm0}
use iss_notify_firmware.Rtc.Ready.{clear_alarm0-IsReady}
use iss_notify_firmware.Firmware.{Firmware}
use iss_notify_firmware.Commands.Invariant.{IsWellFormed, Keeps, led_show-IsWellFormed}
use iss_notify_firmware.Main.{int3_isr, timer3_isr, listen}
use iss_notify_firmware.Main.Rainbow.{rainbow_step}
use iss_notify_firmware.Main.Events.{listen-Keeps, rainbow_step-Keeps}
use iss_notify_firmware.Main.Points.{
  Point, listening, testing_alarm, clearing, noting, enabling, lowering, turning, showing,
  testing_reset, clearing_reset, lowering_reset, enabling_again, Running, at, statement, Step, run,
  int3, timer3, host, Reach, here, next,
}

-- A statement that, if it gives a state, gives one with a property.
abbrev pub After : {B : Type 0} → (Running B → Type 0) → Option (Running B) → Type 0
After P none = Unit
After P (some r) = P r

module _ {B : Type 0} (twi : Twi B) where
  abbrev IsSound : Running B → Type 0
  IsSound r = IsWellFormed r.firmware

  went_on :
      (p : Point) (m : Option (Firmware B)) → Keeps m → After IsSound (m >>= λ fw. some (at p fw))
  went_on p none k = tt
  went_on p (some fw) k = k

  cleared :
      {fw : Firmware B}
      → IsWellFormed fw
      → IsWellFormed (record fw { rtc = clear_alarm0 twi fw.rtc })
  cleared {fw} w = let clock = clear_alarm0-IsReady twi fw.rtc w.clock in assumption clock

  statement-IsWellFormed :
      (p : Point) (fw : Firmware B) → IsWellFormed fw → After IsSound (statement twi p fw)
  unfolding statement
  statement-IsWellFormed listening fw w = went_on testing_alarm (listen twi fw) (listen-Keeps twi w)
  statement-IsWellFormed testing_alarm fw w = w
  statement-IsWellFormed clearing fw w = cleared w
  statement-IsWellFormed noting fw w = assumption
  statement-IsWellFormed enabling fw w = assumption
  statement-IsWellFormed lowering fw w = assumption
  statement-IsWellFormed turning fw w = went_on showing (rainbow_step fw) (rainbow_step-Keeps twi w)
  statement-IsWellFormed showing fw w = led_show-IsWellFormed w
  statement-IsWellFormed testing_reset fw w = w
  statement-IsWellFormed clearing_reset fw w = cleared w
  statement-IsWellFormed lowering_reset fw w = assumption
  statement-IsWellFormed enabling_again fw w = assumption

  pub Step-IsWellFormed :
      {s t : Running B} → Step twi s t → IsWellFormed s.firmware → IsWellFormed t.firmware
  Step-IsWellFormed {s} (run e) w =
      subst (After IsSound) e (statement-IsWellFormed s.point s.firmware w)
  Step-IsWellFormed (int3 on e) w = subst IsSound (sym e) (unfold int3_isr in assumption)
  Step-IsWellFormed (timer3 e) w = subst IsSound (sym e) (unfold timer3_isr in ground arith)
  Step-IsWellFormed (host text e) w = subst IsSound (sym e) (assumption)

  -- Whatever the host sends and however the interrupts fall between the statements of the main
  -- loop, every state that the firmware reaches from a well-formed one, at whatever statement it
  -- begins, is well-formed: the arrays and buffers keep their lengths, the LED clock pin is low
  -- between the statements, the rainbow's index stays at 0 to 7, and the two times stay 32-bit
  -- numbers.
  pub points-IsWellFormed :
      {s t : Running B} → Reach twi s t → IsWellFormed s.firmware → IsWellFormed t.firmware
  points-IsWellFormed here w = w
  points-IsWellFormed (next r step) w = Step-IsWellFormed step (points-IsWellFormed r w)
