-- ===== src/Main/Points/Lap.antt =====
-- A round in which the host sends nothing, with interrupts between its statements, and what it
-- makes of the stream and the EEPROM.
use iss_notify_firmware.Common.{
  Bool, true, false, Option, some, Bytes, ltb, if◌then◌else◌, ◌>>=◌, ◌≡◌, refl, ap, sym, ◌∙◌, subst,
  ◌⊎◌, inl, inr, some-injective,
}
use iss_notify_firmware.Twi.{Twi}
use iss_notify_firmware.Firmware.{Firmware, Eeprom, led_show}
use iss_notify_firmware.Commands.Invariant.{IsWellFormed}
use iss_notify_firmware.Main.{int3_isr, timer3_isr, listen}
use iss_notify_firmware.Main.Command.{SameStore, rainbow_step-SameStore}
use iss_notify_firmware.Main.Points.{
  Point, listening, testing_alarm, clearing, noting, enabling, lowering, turning, showing,
  testing_reset, clearing_reset, lowering_reset, enabling_again, Running, at, starts, statement,
  Step, run, int3, timer3, host,
}
use iss_notify_firmware.Main.Points.Invariant.{Step-IsWellFormed}

-- The stream and the EEPROM.
pub record Content : Type 0 where
  pub input : Bytes
  pub output : Bytes
  pub eeprom : Eeprom

abbrev pub content : {B : Type 0} → Firmware B → Content
content fw = record { input = fw.input; output = fw.output; eeprom = fw.eeprom }

module _ {B : Type 0} (twi : Twi B) where
  abbrev IsSilent : {s t : Running B} → Step twi s t → Type 0
  IsSilent (run e) = Unit
  IsSilent (int3 on e) = Unit
  IsSilent (timer3 e) = Unit
  IsSilent (host text e) = ⊥

  -- Steps of a round up to its last statement.
  pub data Lap (s : Running B) : Running B → Type 0 where
    begin : Lap s s
    go_on :
        {t u : Running B}
        → Lap s t
        → (step : Step twi t u) → IsSilent step
        → (t.point ≡ enabling_again → u.point ≡ enabling_again)
        → Lap s u

  -- A command that is there is heard, whatever the rest of the state.
  abbrev pub Answers : Content → Content → Type 0
  Answers a b =
      (x : Firmware B)
      → IsWellFormed x
      → content x ≡ a
      → (y : Firmware B) × (listen twi x ≡ some y) × (content y ≡ b)

  -- The content in front of the command, or behind it.
  abbrev Told : Content → Content → Running B → Type 0
  Told a b r = content r.firmware ≡ (if starts r.point then a else b)

  abbrev Speaks : Content → Content → Option (Running B) → Type 0
  Speaks a b m = (r : Running B) × (m ≡ some r) × Told a b r

  -- The last statement of the loop.
  abbrev Finishes : Content → Option (Running B) → Type 0
  Finishes b m = (r : Running B) × (m ≡ some r) × (r.point ≡ listening) × (content r.firmware ≡ b)

  SameStore-content : (s t : Firmware B) → SameStore twi s t → content t ≡ content s
  SameStore-content s t h =
      λ i. record { input = h.input i; output = h.output i; eeprom = h.eeprom i }

  unmoved :
      (b : Bool) (p q : Point) (x y : Content)
      → starts p ≡ false
      → starts q ≡ false
      → (if starts (if b then p else q) then x else y) ≡ y
  unmoved true p q x y h k = ap (λ c. if c then x else y) h
  unmoved false p q x y h k = ap (λ c. if c then x else y) k

  statement-Speaks :
      (p : Point) (fw : Firmware B) (a b : Content)
      → Answers a b
      → IsWellFormed fw
      → Told a b (at p fw)
      → Speaks a b (statement twi p fw) ⊎ (Finishes b (statement twi p fw) × (p ≡ enabling_again))
  unfolding statement
  statement-Speaks listening fw a b answers w h =
      let (y, heard, said) = answers fw w h in
      inl (at testing_alarm y, ap (λ m. m >>= λ x. some (at testing_alarm x)) heard, said)
  statement-Speaks testing_alarm fw a b answers w h =
      inl (_, refl, h ∙ sym (unmoved (ltb 0 fw.alarm) clearing turning a b refl refl))
  statement-Speaks clearing fw a b answers w h = inl (_, refl, h)
  statement-Speaks noting fw a b answers w h = inl (_, refl, h)
  statement-Speaks enabling fw a b answers w h = inl (_, refl, h)
  statement-Speaks lowering fw a b answers w h = inl (_, refl, h)
  statement-Speaks turning fw a b answers w h =
      let (y, drawn, same) = rainbow_step-SameStore twi w in
      inl (
        at showing y,
        ap (λ m. m >>= λ x. some (at showing x)) drawn,
        SameStore-content fw y same ∙ h,
      )
  statement-Speaks showing fw a b answers w h = inl (_, refl, unfold led_show in h)
  statement-Speaks testing_reset fw a b answers w h = inl (
    _,
    refl,
    h ∙ sym (unmoved (ltb 0 fw.reset_alarm) clearing_reset lowering_reset a b refl refl),
  )
  statement-Speaks clearing_reset fw a b answers w h = inl (_, refl, h)
  statement-Speaks lowering_reset fw a b answers w h = inl (_, refl, h)
  statement-Speaks enabling_again fw a b answers w h = inr ((_, refl, refl, h), refl)

  Step-Told :
      {s t : Running B} (a b : Content) (step : Step twi s t)
      → IsSilent step
      → (s.point ≡ enabling_again → t.point ≡ enabling_again)
      → Answers a b
      → IsWellFormed s.firmware
      → Told a b s
      → Told a b t
  Step-Told {s} {t} a b (run e) silent stay answers w h =
      elim (statement-Speaks s.point s.firmware a b answers w h) [
        | inl (r, ends, told) ↦ subst (Told a b) (some-injective _ _ (sym ends ∙ e)) told
        | inr ((r, ends, back, told), last) ↦
            (let same : r ≡ t = some-injective _ _ (sym ends ∙ e) in
              let kept = stay last in
              let first : t.point ≡ listening = ap (λ (x : Running B). x.point) (sym same) ∙ back in
              absurd (cc))
      ]
  Step-Told a b (int3 on e) silent stay answers w h =
      subst (Told a b) (sym e) (unfold int3_isr in h)
  Step-Told a b (timer3 e) silent stay answers w h =
      subst (Told a b) (sym e) (unfold timer3_isr in h)
  Step-Told a b (host text e) silent stay answers w h = absurd (silent)

  Lap-Told :
      {s t : Running B} (a b : Content)
      → Lap s t
      → Answers a b
      → IsWellFormed s.firmware
      → Told a b s
      → IsWellFormed t.firmware × Told a b t
  Lap-Told a b begin answers w h = (w, h)
  Lap-Told a b (go_on r step silent stay) answers w h =
      let (w', h') = Lap-Told a b r answers w h in
      (Step-IsWellFormed twi step w', Step-Told a b step silent stay answers w' h')

  -- A whole round: the steps of a lap, and the last statement.
  pub record Round (s t : Running B) : Type 0 where
    pub last : Running B
    pub lap : Lap s last
    pub at_last : last.point ≡ enabling_again
    pub back : statement twi last.point last.firmware ≡ some t

  last_statement :
      (p : Point) (fw : Firmware B) (b : Content)
      → p ≡ enabling_again
      → content fw ≡ b
      → Finishes b (statement twi p fw)
  unfolding statement
  last_statement p fw b e h =
      subst (λ q. Finishes b (statement twi q fw)) (sym e) (_, refl, refl, h)

  pub Round-told :
      {s t : Running B} (a b : Content)
      → Round s t
      → Answers a b
      → IsWellFormed s.firmware
      → s.point ≡ listening
      → content s.firmware ≡ a
      → IsWellFormed t.firmware × (t.point ≡ listening) × (content t.firmware ≡ b)
  Round-told {s} {t} a b r answers w first h =
      let start : Told a b s = h ∙ ap (λ p. if starts p then a else b) (sym first) in
      let (w', h') = Lap-Told a b r.lap answers w start in
      let (x, ends, back, told) =
        last_statement r.last.point r.last.firmware b r.at_last
          (h' ∙ ap (λ p. if starts p then a else b) r.at_last) in
      let same : x ≡ t = some-injective _ _ (sym ends ∙ r.back) in
      (
        Step-IsWellFormed twi {s = r.last} {t = t} (run r.back) w',
        ap (λ (y : Running B). y.point) (sym same) ∙ back,
        ap (λ (y : Running B). content y.firmware) (sym same) ∙ told,
      )

  -- No statement of such a round is stuck.
  pub Lap-goes_on :
      {s t : Running B} (a b : Content)
      → Lap s t
      → Answers a b
      → IsWellFormed s.firmware
      → s.point ≡ listening
      → content s.firmware ≡ a
      → (u : Running B) × (statement twi t.point t.firmware ≡ some u)
  Lap-goes_on {s} {t} a b r answers w first h =
      let start : Told a b s = h ∙ ap (λ p. if starts p then a else b) (sym first) in
      let (w', h') = Lap-Told a b r answers w start in
      elim (statement-Speaks t.point t.firmware a b answers w' h') [
        | inl (x, ends, told) ↦ (x, ends)
        | inr ((x, ends, back, told), last) ↦ (x, ends)
      ]
