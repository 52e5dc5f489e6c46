-- ===== src/Main/Points/Dropped.antt =====
-- An alarm that comes between the enabling of INT3 and the lowering of the flag.
use iss_notify_firmware.Common.{
  Bool, true, false, Option, none, some, ◌≡◌, ◌⊎◌, inl, inr, refl, subst, sym, ap, ◌∙◌, arith, ltb,
  if◌then◌else◌, ◌>>=◌, bit,
}
use iss_notify_firmware.Twi.{Twi}
use iss_notify_firmware.Rtc.{Rtc}
use iss_notify_firmware.Firmware.{Firmware, led_show}
use iss_notify_firmware.Main.{int3_bit, int3_isr, timer3_isr}
use iss_notify_firmware.Main.Rainbow.{rainbow_step}
use iss_notify_firmware.Main.Interrupts.{clear_bit-three}
use iss_notify_firmware.Main.Points.{
  Point, listening, testing_alarm, clearing, noting, enabling, lowering, turning, showing,
  testing_reset, clearing_reset, lowering_reset, enabling_again, Running, at, statement, Step, run,
  int3, timer3, host, Within, start, later,
}
use iss_notify_firmware.Main.Points.Invariant.{After}
use iss_notify_firmware.Main.Points.Alarm.{Untouched, rainbow_step-Untouched}

module _ {B : Type 0} (twi : Twi B) (clock : Rtc B) where
  -- The flags are down, INT3 is masked, and nobody has spoken to the clock.
  abbrev Quiet : Firmware B → Type 0
  Quiet fw = (fw.alarm ≡ 0) × (bit fw.eimsk int3_bit ≡ 0) × (fw.reset_alarm ≡ 0) × (fw.rtc ≡ clock)

  -- The statements that such a round still goes through.
  abbrev remaining : Point → Bool
  remaining turning = true
  remaining showing = true
  remaining testing_reset = true
  remaining lowering_reset = true
  remaining enabling_again = true
  remaining _ = false

  abbrev QuietAt : Running B → Type 0
  QuietAt r = (remaining r.point ≡ true) × Quiet r.firmware

  turned :
      (s : Firmware B) (m : Option (Firmware B))
      → Untouched s m
      → Quiet s
      → After QuietAt (m >>= λ fw. some (at showing fw))
  turned s none k h = tt
  turned s (some t) k h =
      (refl, (k.0.0 ∙ h.0, ap (λ x. bit x int3_bit) k.0.3 ∙ h.1, k.0.1 ∙ h.2, k.1 ∙ h.3))

  untested :
      (fw : Firmware B)
      → fw.reset_alarm ≡ 0
      → (if ltb 0 fw.reset_alarm then clearing_reset else lowering_reset) ≡ lowering_reset
  untested fw h = ap (λ n. if ltb 0 n then clearing_reset else lowering_reset) h

  statement-QuietAt :
      (p : Point) (fw : Firmware B)
      → remaining p ≡ true
      → Quiet fw
      → After QuietAt (statement twi p fw)
        ⊎ (After (λ r. r.point ≡ listening) (statement twi p fw) × (p ≡ enabling_again))
  unfolding statement
  statement-QuietAt listening fw e h = absurd (cc)
  statement-QuietAt testing_alarm fw e h = absurd (cc)
  statement-QuietAt clearing fw e h = absurd (cc)
  statement-QuietAt noting fw e h = absurd (cc)
  statement-QuietAt enabling fw e h = absurd (cc)
  statement-QuietAt lowering fw e h = absurd (cc)
  statement-QuietAt turning fw e h = inl (turned fw (rainbow_step fw) (rainbow_step-Untouched fw) h)
  statement-QuietAt showing fw e h = inl (refl, unfold led_show in h)
  statement-QuietAt testing_reset fw e h = inl (ap remaining (untested fw h.2), h)
  statement-QuietAt clearing_reset fw e h = absurd (cc)
  statement-QuietAt lowering_reset fw e h = inl (refl, (h.0, h.1, refl, h.3))
  statement-QuietAt enabling_again fw e h = inr (refl, refl)

  Step-QuietAt :
      {s t : Running B}
      → Step twi s t
      → (s.point ≡ enabling_again → t.point ≡ enabling_again)
      → QuietAt s
      → QuietAt t
  Step-QuietAt {s} {t} (run e) stay (left, h) = elim (statement-QuietAt s.point s.firmware left h) [
    | inl k ↦ subst (After QuietAt) e k
    | inr (k, last) ↦
        (let back : t.point ≡ listening = subst (After (λ r. r.point ≡ listening)) e k in
          let kept = stay last in absurd (cc))
  ]
  Step-QuietAt (int3 on e) stay (left, h) = absurd (omega (arith, h.1))
  Step-QuietAt (timer3 e) stay h = subst QuietAt (sym e) (unfold timer3_isr in h)
  Step-QuietAt (host text e) stay h = subst QuietAt (sym e) h

  Within-QuietAt : {s t : Running B} → Within twi s t → QuietAt s → QuietAt t
  Within-QuietAt start h = h
  Within-QuietAt (later r step stay) h = Step-QuietAt step stay (Within-QuietAt r h)

module _ {B : Type 0} (twi : Twi B) where
  -- With `reset_alarm` at 0, when INT3 is served just before the main loop takes the flag down
  -- behind its handling: to the end of that round, whatever the host sends and however the
  -- interrupts fall, the flag stays down, INT3 stays masked and the clock's driver is as it was,
  -- so this alarm is not handled in the round.
  pub points_dropped :
      (fw : Firmware B) {s t : Running B}
      → fw.reset_alarm ≡ 0
      → statement twi lowering (int3_isr fw) ≡ some s
      → Within twi s t
      → (t.firmware.alarm ≡ 0) × (bit t.firmware.eimsk int3_bit ≡ 0) × (t.firmware.rtc ≡ fw.rtc)
  unfolding statement int3_isr
  points_dropped fw down e r =
      let first : QuietAt twi fw.rtc (at turning (record (int3_isr fw) { alarm = 0 })) =
        (refl, (refl, clear_bit-three fw.eimsk, down, refl)) in
      let (left, h) = Within-QuietAt twi fw.rtc r (subst (After (QuietAt twi fw.rtc)) e first) in
      (h.0, h.1, h.3)
