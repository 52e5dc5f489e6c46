-- ===== src/Main/Points/Served.antt =====
-- A round that begins with the alarm's flag up clears the alarm, wherever the interrupts fall.
use iss_notify_firmware.Common.{
  Bool, true, false, Option, none, some, ◌≡◌, ◌⊎◌, inl, inr, refl, subst, sym, ap, ◌∙◌, ltb,
  if◌then◌else◌, ◌>>=◌,
}
use iss_notify_firmware.Twi.{Twi}
use iss_notify_firmware.Rtc.{Rtc, clear_alarm0}
use iss_notify_firmware.Rtc.Chip.{RegisterChip, IsReady, registers_of}
use iss_notify_firmware.Rtc.Alarm.{clear_alarm0_lem}
use iss_notify_firmware.Firmware.{Firmware, led_show}
use iss_notify_firmware.Commands.Invariant.{IsWellFormed}
use iss_notify_firmware.Commands.Flags.{KeepsFlags}
use iss_notify_firmware.Main.{int3_isr, timer3_isr, listen}
use iss_notify_firmware.Main.Rainbow.{rainbow_step}
use iss_notify_firmware.Main.Points.{
  Point, listening, testing_alarm, clearing, noting, enabling, lowering, turning, showing,
  testing_reset, clearing_reset, lowering_reset, enabling_again, Running, at, statement, Step, run,
  int3, timer3, host, Within, start, later,
}
use iss_notify_firmware.Main.Points.Invariant.{After, Step-IsWellFormed}
use iss_notify_firmware.Main.Points.Alarm.{Untouched, rainbow_step-Untouched, listen-KeepsFlags}

module _ {B : Type 0} (twi : Twi B) (chip : RegisterChip twi) where
  -- The alarm's registers in the chip are cleared.
  abbrev IsCleared : Rtc B → Type 0
  IsCleared r = (registers_of twi chip r 0x0d ≡ 0) × (registers_of twi chip r 7 ≡ 0x80)

  clear_alarm0-IsCleared : (r : Rtc B) → IsReady r → IsCleared (clear_alarm0 twi r)
  clear_alarm0-IsCleared r ready = rw (clear_alarm0_lem twi chip r ready) (refl, refl)

  -- What holds at each statement of such a round.
  abbrev Served : Point → Firmware B → Type 0
  Served listening fw = fw.alarm ≡ 1
  Served testing_alarm fw = fw.alarm ≡ 1
  Served clearing fw = Unit
  Served noting fw = IsCleared fw.rtc
  Served enabling fw = IsCleared fw.rtc × (fw.pass ≡ 1)
  Served lowering fw = IsCleared fw.rtc × (fw.pass ≡ 1)
  Served turning fw = IsCleared fw.rtc × (fw.pass ≡ 1)
  Served showing fw = IsCleared fw.rtc × (fw.pass ≡ 1)
  Served testing_reset fw = IsCleared fw.rtc × (fw.pass ≡ 1)
  Served clearing_reset fw = IsCleared fw.rtc × (fw.pass ≡ 1)
  Served lowering_reset fw = IsCleared fw.rtc × (fw.pass ≡ 1)
  Served enabling_again fw = IsCleared fw.rtc × (fw.pass ≡ 1)

  abbrev ServedAt : Running B → Type 0
  ServedAt r = Served r.point r.firmware

  -- An interrupt, or the host, does no harm.
  Served-change :
      (p : Point) (s t : Firmware B)
      → (s.alarm ≡ 1 → t.alarm ≡ 1)
      → t.rtc ≡ s.rtc
      → t.pass ≡ s.pass
      → Served p s
      → Served p t
  Served-change listening s t up clock pass h = up h
  Served-change testing_alarm s t up clock pass h = up h
  Served-change clearing s t up clock pass h = tt
  Served-change noting s t up clock pass h = subst IsCleared (sym clock) h
  Served-change enabling s t up clock pass h = (subst IsCleared (sym clock) h.0, pass ∙ h.1)
  Served-change lowering s t up clock pass h = (subst IsCleared (sym clock) h.0, pass ∙ h.1)
  Served-change turning s t up clock pass h = (subst IsCleared (sym clock) h.0, pass ∙ h.1)
  Served-change showing s t up clock pass h = (subst IsCleared (sym clock) h.0, pass ∙ h.1)
  Served-change testing_reset s t up clock pass h = (subst IsCleared (sym clock) h.0, pass ∙ h.1)
  Served-change clearing_reset s t up clock pass h = (subst IsCleared (sym clock) h.0, pass ∙ h.1)
  Served-change lowering_reset s t up clock pass h = (subst IsCleared (sym clock) h.0, pass ∙ h.1)
  Served-change enabling_again s t up clock pass h = (subst IsCleared (sym clock) h.0, pass ∙ h.1)

  heard :
      (s : Firmware B) (m : Option (Firmware B))
      → KeepsFlags s m
      → s.alarm ≡ 1
      → After ServedAt (m >>= λ fw. some (at testing_alarm fw))
  heard s none k h = tt
  heard s (some t) k h = k.0 ∙ h

  turned :
      (s : Firmware B) (m : Option (Firmware B))
      → Untouched s m
      → IsCleared s.rtc × (s.pass ≡ 1)
      → After ServedAt (m >>= λ fw. some (at showing fw))
  turned s none k h = tt
  turned s (some t) k h = (subst IsCleared (sym k.1) h.0, k.0.2 ∙ h.1)

  cleared_or_not :
      (b : Bool) (fw : Firmware B)
      → IsCleared fw.rtc × (fw.pass ≡ 1)
      → Served (if b then clearing_reset else lowering_reset) fw
  cleared_or_not true fw h = h
  cleared_or_not false fw h = h

  tested :
      (fw : Firmware B) → fw.alarm ≡ 1 → (if ltb 0 fw.alarm then clearing else turning) ≡ clearing
  tested fw h = ap (λ n. if ltb 0 n then clearing else turning) h

  -- Every statement but the last of the loop.
  statement-Served :
      (p : Point) (fw : Firmware B)
      → IsReady fw.rtc
      → Served p fw
      → After ServedAt (statement twi p fw)
        ⊎ (After (λ r. r.point ≡ listening) (statement twi p fw) × (p ≡ enabling_again))
  unfolding statement
  statement-Served listening fw ready h =
      inl (heard fw (listen twi fw) (listen-KeepsFlags twi fw) h)
  statement-Served testing_alarm fw ready h = inl (subst (λ p. Served p fw) (sym (tested fw h)) tt)
  statement-Served clearing fw ready h = inl (clear_alarm0-IsCleared fw.rtc ready)
  statement-Served noting fw ready h = inl (h, refl)
  statement-Served enabling fw ready h = inl h
  statement-Served lowering fw ready h = inl h
  statement-Served turning fw ready h =
      inl (turned fw (rainbow_step fw) (rainbow_step-Untouched fw) h)
  statement-Served showing fw ready h = inl (unfold led_show in h)
  statement-Served testing_reset fw ready h = inl (cleared_or_not (ltb 0 fw.reset_alarm) fw h)
  statement-Served clearing_reset fw ready h = inl (clear_alarm0-IsCleared fw.rtc ready, h.1)
  statement-Served lowering_reset fw ready h = inl h
  statement-Served enabling_again fw ready h = inr (refl, refl)

  Step-ServedAt :
      {s t : Running B}
      → Step twi s t
      → (s.point ≡ enabling_again → t.point ≡ enabling_again)
      → IsReady s.firmware.rtc
      → ServedAt s
      → ServedAt t
  Step-ServedAt {s} {t} (run e) stay ready h = elim (statement-Served s.point s.firmware ready h) [
    | inl k ↦ subst (After ServedAt) e k
    | inr (k, last) ↦
        (let back : t.point ≡ listening = subst (After (λ r. r.point ≡ listening)) e k in
          let kept = stay last in absurd (cc))
  ]
  Step-ServedAt {s} (int3 on e) stay ready h =
      subst ServedAt (sym e)
        (unfold int3_isr in Served-change s.point s.firmware _ (λ _. refl) refl refl h)
  Step-ServedAt {s} (timer3 e) stay ready h =
      subst ServedAt (sym e)
        (unfold timer3_isr in Served-change s.point s.firmware _ (λ up. up) refl refl h)
  Step-ServedAt {s} (host text e) stay ready h =
      subst ServedAt (sym e) (Served-change s.point s.firmware _ (λ up. up) refl refl h)

  Within-ServedAt :
      {s t : Running B}
      → Within twi s t
      → IsWellFormed s.firmware
      → ServedAt s
      → IsWellFormed t.firmware × ServedAt t
  Within-ServedAt start w h = (w, h)
  Within-ServedAt (later r step stay) w h =
      let (w', h') = Within-ServedAt r w h in
      (Step-IsWellFormed twi step w', Step-ServedAt step stay w'.clock h')

  -- Is the statement behind the handling of the flag?
  abbrev pub behind : Point → Bool
  behind turning = true
  behind showing = true
  behind testing_reset = true
  behind clearing_reset = true
  behind lowering_reset = true
  behind enabling_again = true
  behind _ = false

  Served-behind :
      (p : Point) (fw : Firmware B)
      → behind p ≡ true
      → Served p fw
      → IsCleared fw.rtc × (fw.pass ≡ 1)
  Served-behind listening fw e h = absurd (cc)
  Served-behind testing_alarm fw e h = absurd (cc)
  Served-behind clearing fw e h = absurd (cc)
  Served-behind noting fw e h = absurd (cc)
  Served-behind enabling fw e h = h
  Served-behind lowering fw e h = h
  Served-behind turning fw e h = h
  Served-behind showing fw e h = h
  Served-behind testing_reset fw e h = h
  Served-behind clearing_reset fw e h = h
  Served-behind lowering_reset fw e h = h
  Served-behind enabling_again fw e h = h

  -- On a chip that keeps its registers: in a round of the main loop that begins in a well-formed
  -- state with the alarm's flag up, whatever the host sends and however the interrupts fall
  -- between the statements, at every statement behind the handling of the flag up to the end of
  -- the round the alarm's weekday register is 0, the control register has the output bit alone,
  -- and the pass is noted.
  pub points-cleared :
      {s t : Running B}
      → Within twi s t
      → IsWellFormed s.firmware
      → s.point ≡ listening
      → s.firmware.alarm ≡ 1
      → behind t.point ≡ true
      → (registers_of twi chip t.firmware.rtc 0x0d ≡ 0)
        × (registers_of twi chip t.firmware.rtc 7 ≡ 0x80)
        × (t.firmware.pass ≡ 1)
  points-cleared {s} {t} r w first up passed =
      let h = (Within-ServedAt r w (subst (λ p. Served p s.firmware) (sym first) up)).1 in
      let (c, noted) = Served-behind t.point t.firmware passed h in (c.0, c.1, noted)
