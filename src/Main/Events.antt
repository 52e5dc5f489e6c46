-- ===== src/Main/Events.antt =====
-- The running firmware: rounds of the main loop, the two interrupts between them, and what the
-- host sends. Within a round an interrupt is served before or after it: the timer's counter is
-- read once in a round, and the alarm's flag is tested once.
use iss_notify_firmware.Common.{
  ℕ, some, List, [], ◌∷◌, ◌++◌, Bytes, bit, length, ◌≡◌, refl, subst, sym, arith, Bool, ltb,
  if◌then◌else◌, Bool-cases, inl, inr, true, false,
}
use iss_notify_firmware.Led.{Light}
use iss_notify_firmware.Twi.{Twi}
use iss_notify_firmware.Rtc.{Rtc}
use iss_notify_firmware.Rtc.Chip.{IsReady}
use iss_notify_firmware.Commands.Settings.{millis}
use iss_notify_firmware.Rtc.Ready.{clear_alarm0-IsReady}
use iss_notify_firmware.Stdio.{fscanf}
use iss_notify_firmware.Firmware.{Firmware}
use iss_notify_firmware.Commands.Dispatch.{commands}
use iss_notify_firmware.Commands.Invariant.{
  IsWellFormed, Keeps, Keeps-bind, if-IsWellFormed, led_show-IsWellFormed, dispatch-IsWellFormed,
}
use iss_notify_firmware.Main.{
  int3_bit, command_format, int3_isr, timer3_isr, obey, listen, handle_alarm, handle_reset,
  iteration,
}
use iss_notify_firmware.Main.Rainbow.{advance, rainbow_step}
use iss_notify_firmware.Main.Rotation.{wheel, position, rainbow_step-shown}

module _ {B : Type 0} (twi : Twi B) where
  pub data Step (s t : Firmware B) : Type 0 where
    round : iteration twi s ≡ some t → Step s t
    -- INT3 is served where EIMSK lets it through.
    int3 : bit s.eimsk int3_bit ≡ 1 → t ≡ int3_isr s → Step s t
    timer3 : t ≡ timer3_isr s → Step s t
    host : (text : Bytes) → t ≡ record s { input = s.input ++ text } → Step s t

  pub data Reach (s : Firmware B) : Firmware B → Type 0 where
    here : Reach s s
    next : {t u : Firmware B} → Reach s t → Step t u → Reach s u

  if-IsReady : (b : Bool) (x y : Rtc B) → IsReady x → IsReady y → IsReady (if b then x else y)
  if-IsReady true x y h k = h
  if-IsReady false x y h k = k

  pub rainbow_step_off : (fw : Firmware B) → fw.do_rainbow ≡ false → rainbow_step fw ≡ some fw
  unfolding rainbow_step
  rainbow_step_off fw off = simp off

  obey-Keeps : (vs : List ℕ) {fw : Firmware B} → IsWellFormed fw → Keeps (obey twi vs fw)
  unfolding obey
  obey-Keeps [] w = w
  obey-Keeps (c ∷ []) w = dispatch-IsWellFormed twi commands c w
  obey-Keeps (c ∷ d ∷ vs) w = w

  pub listen-Keeps : {fw : Firmware B} → IsWellFormed fw → Keeps (listen twi fw)
  unfolding listen
  listen-Keeps {fw} w = obey-Keeps (fscanf command_format fw.input).0 (assumption)

  pub handle_alarm-IsWellFormed :
      {fw : Firmware B} → IsWellFormed fw → IsWellFormed (handle_alarm twi fw)
  unfolding handle_alarm
  handle_alarm-IsWellFormed {fw} w =
      let clock = clear_alarm0-IsReady twi fw.rtc w.clock in
      if-IsWellFormed (ltb 0 fw.alarm) (assumption clock) w

  handle_reset-IsWellFormed :
      {fw : Firmware B} → IsWellFormed fw → IsWellFormed (handle_reset twi fw)
  unfolding handle_reset
  handle_reset-IsWellFormed {fw} w =
      let clear = clear_alarm0-IsReady twi fw.rtc w.clock in
      let clock = if-IsReady (ltb 0 fw.reset_alarm) _ _ clear w.clock in assumption clock

  turned-IsWellFormed :
      {fw : Firmware B} (lights : List Light)
      → length lights ≡ 8
      → IsWellFormed fw
      → IsWellFormed (record (advance fw) {
        show = lights;
        bow_rotate = if ltb 7 (position fw) then 0 else position fw;
      })
  unfolding advance millis
  turned-IsWellFormed {fw} lights h w = ground arith

  pub rainbow_step-Keeps : {fw : Firmware B} → IsWellFormed fw → Keeps (rainbow_step fw)
  rainbow_step-Keeps {fw} w = elim (Bool-cases fw.do_rainbow) [
    | inl on ↦
        subst Keeps (sym (rainbow_step-shown fw on w.lights w.wheel))
          (led_show-IsWellFormed (turned-IsWellFormed (wheel (position fw)) refl w))
    | inr off ↦ subst Keeps (sym (rainbow_step_off fw off)) w
  ]

  -- A round that ends keeps the state well-formed.
  pub iteration-Keeps : {fw : Firmware B} → IsWellFormed fw → Keeps (iteration twi fw)
  unfolding iteration
  iteration-Keeps {fw} w = Keeps-bind (listen twi fw) _ λ a heard.
      let w₁ = handle_alarm-IsWellFormed (subst Keeps heard (listen-Keeps w)) in
      Keeps-bind (rainbow_step (handle_alarm twi a)) _ λ b turned.
        handle_reset-IsWellFormed
          (led_show-IsWellFormed (subst Keeps turned (rainbow_step-Keeps w₁)))

  Step-IsWellFormed : {s t : Firmware B} → Step s t → IsWellFormed s → IsWellFormed t
  Step-IsWellFormed (round e) w = subst Keeps e (iteration-Keeps w)
  Step-IsWellFormed (int3 on e) w = subst IsWellFormed (sym e) (unfold int3_isr in assumption)
  Step-IsWellFormed (timer3 e) w = subst IsWellFormed (sym e) (unfold timer3_isr in ground arith)
  Step-IsWellFormed (host text e) w = subst IsWellFormed (sym e) (assumption)

  pub Reach-IsWellFormed : {s t : Firmware B} → Reach s t → IsWellFormed s → IsWellFormed t
  Reach-IsWellFormed here w = w
  Reach-IsWellFormed (next r step) w = Step-IsWellFormed step (Reach-IsWellFormed r w)
