-- ===== src/Main/Points/Alone.antt =====
-- The statements of a round, with no interrupt between them, are the round.
use iss_notify_firmware.Common.{
  ℕ, suc, Bool, true, false, Option, none, some, ◌≡◌, refl, ltb, if◌then◌else◌, ◌>>=◌, Option-cases,
  inl, inr, Bool-cases, set_bit, ◌∙◌, ap,
}
use iss_notify_firmware.Twi.{Twi}
use iss_notify_firmware.Firmware.{Firmware, led_show}
use iss_notify_firmware.Main.{int3_bit, listen, handle_alarm, handle_reset, iteration}
use iss_notify_firmware.Main.Rainbow.{rainbow_step}
use iss_notify_firmware.Main.Points.{
  Point, listening, testing_alarm, turning, testing_reset, Running, at, statement, alone, starts,
  lowering_reset, clearing_reset, showing, clearing, noting, enabling, lowering,
}

>>=_assoc :
    {A B C : Type 0} (m : Option A) (f : A → B) (g : B → C)
    → (m >>= λ a. some (g (f a))) ≡ ((m >>= λ a. some (f a)) >>= λ b. some (g b))
>>=_assoc none f g = refl
>>=_assoc (some a) f g = refl

module _ {B : Type 0} (twi : Twi B) where
  -- One statement that does not end the round, and one that gives no state.
  alone_next :
      (n : ℕ) (p : Point) (fw : Firmware B) (r : Running B)
      → statement twi p fw ≡ some r
      → starts r.point ≡ false
      → alone twi (suc n) (at p fw) ≡ alone twi n r
  unfolding alone
  alone_next n p fw r e more =
      rw (e, alone)
        (ap
          (λ (b : Bool).
            let x : Option (Running B) = elim b [ true ↦ some r | false ↦ alone twi n r ] in x)
          more)

  alone_stuck :
      (n : ℕ) (p : Point) (fw : Firmware B)
      → statement twi p fw ≡ none
      → alone twi (suc n) (at p fw) ≡ none
  unfolding alone
  alone_stuck n p fw e = rw (e, alone) refl

  alone-lowering_reset :
      (n : ℕ) (fw : Firmware B)
      → alone twi (suc (suc n)) (at lowering_reset fw)
        ≡ some (at listening (record fw { reset_alarm = 0; eimsk = set_bit fw.eimsk int3_bit }))
  unfolding alone statement
  alone-lowering_reset n fw = refl

  alone-handle_reset :
      (n : ℕ) (fw : Firmware B)
      → alone twi (suc (suc (suc (suc n)))) (at testing_reset fw)
        ≡ some (at listening (handle_reset twi fw))
  unfolding statement handle_reset
  alone-handle_reset n fw = elim (Bool-cases (ltb 0 fw.reset_alarm)) [
    | inl e ↦ rw e (
        alone_next (suc (suc (suc n))) testing_reset fw (at clearing_reset fw)
          (ap (λ b. some (at (if b then clearing_reset else lowering_reset) fw)) e) refl
        ∙ alone_next (suc (suc n)) clearing_reset fw _ refl refl
        ∙ alone-lowering_reset n _)
    | inr e ↦ rw e (
        alone_next (suc (suc (suc n))) testing_reset fw (at lowering_reset fw)
          (ap (λ b. some (at (if b then clearing_reset else lowering_reset) fw)) e) refl
        ∙ alone-lowering_reset (suc n) fw)
  ]

  -- The rest of a round behind the alarm.
  abbrev rest_of_round : Firmware B → Option (Running B)
  rest_of_round fw =
      rainbow_step fw >>= λ fw'. some (at listening (handle_reset twi (led_show fw')))

  alone-turning :
      (n : ℕ) (fw : Firmware B)
      → alone twi (suc (suc (suc (suc (suc (suc n)))))) (at turning fw) ≡ rest_of_round fw
  unfolding statement
  alone-turning n fw = elim (Option-cases (rainbow_step fw)) [
    | inl e ↦ rw e (alone_stuck _ turning fw (ap (λ r. r >>= λ fw'. some (at showing fw')) e))
    | inr (fw', e) ↦ rw e (
        alone_next _ turning fw (at showing fw') (ap (λ r. r >>= λ fw'. some (at showing fw')) e)
          refl
        ∙ alone_next _ showing fw' (at testing_reset (led_show fw')) refl refl
        ∙ alone-handle_reset n (led_show fw'))
  ]

  alone-handle_alarm :
      (fw : Firmware B) → alone twi 11 (at testing_alarm fw) ≡ rest_of_round (handle_alarm twi fw)
  unfolding statement handle_alarm
  alone-handle_alarm fw = elim (Bool-cases (ltb 0 fw.alarm)) [
    | inl e ↦ rw e (
        alone_next 10 testing_alarm fw (at clearing fw)
          (ap (λ b. some (at (if b then clearing else turning) fw)) e) refl
        ∙ alone_next 9 clearing fw _ refl refl
        ∙ alone_next 8 noting _ _ refl refl
        ∙ alone_next 7 enabling _ _ refl refl
        ∙ alone_next 6 lowering _ _ refl refl
        ∙ alone-turning 0 _)
    | inr e ↦ rw e (
        alone_next 10 testing_alarm fw (at turning fw)
          (ap (λ b. some (at (if b then clearing else turning) fw)) e) refl
        ∙ alone-turning 4 fw)
  ]

  pub alone-iteration :
      (fw : Firmware B)
      → alone twi 12 (at listening fw) ≡ (iteration twi fw >>= λ fw'. some (at listening fw'))
  unfolding statement iteration
  alone-iteration fw = elim (Option-cases (listen twi fw)) [
    | inl e ↦
        rw e (alone_stuck 11 listening fw (ap (λ r. r >>= λ fw'. some (at testing_alarm fw')) e))
    | inr (heard, e) ↦ rw e (
        alone_next 11 listening fw (at testing_alarm heard)
          (ap (λ r. r >>= λ fw'. some (at testing_alarm fw')) e) refl
        ∙ alone-handle_alarm heard
        ∙ >>=_assoc (rainbow_step (handle_alarm twi heard)) _ _)
  ]
