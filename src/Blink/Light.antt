-- ===== src/Blink/Light.antt =====
-- What the light shows.
use iss_notify_firmware.Common.{
  ℕ, zero, suc, ◌<◌, ◌≢◌, List, ◌++◌, [], ◌∷◌, map, set_bit, clear_bit, bit, ◌≡◌, refl, ap, sym,
  ◌∙◌, arith, append_assoc, append-nil,
}
use iss_notify_firmware.Common.Bits.{bit-set_bit, bit-clear_bit}
use iss_notify_firmware.Blink.{Registers, led_on, led_off, blink}

-- On and off, `n` times.
abbrev flashes : ℕ → List ℕ
flashes zero = []
flashes (suc n) = 1 ∷ 0 ∷ flashes n

-- Pin 6 of port D in the values that it has had.
abbrev pub light : Registers → List ℕ
light r = map (λ v. bit v 6) r.trail

light_snoc :
    (vs : List ℕ) (v : ℕ)
    → map (λ x. bit x 6) (vs ++ v ∷ []) ≡ map (λ x. bit x 6) vs ++ bit v 6 ∷ []
light_snoc [] v = refl
light_snoc (w ∷ vs) v = ap (λ x. bit w 6 ∷ x) (light_snoc vs v)

led_on-light : (r : Registers) → light (led_on r) ≡ light r ++ 1 ∷ []
unfolding led_on
led_on-light r =
    light_snoc r.trail (set_bit r.portd 6)
    ∙ ap (λ b. light r ++ b ∷ []) (bit-set_bit r.portd 6 6 (omega arith) (omega arith))

led_off-light : (r : Registers) → light (led_off r) ≡ light r ++ 0 ∷ []
unfolding led_off
led_off-light r =
    light_snoc r.trail (clear_bit r.portd 6)
    ∙ ap (λ b. light r ++ b ∷ []) (bit-clear_bit r.portd 6 6 (omega arith) (omega arith))

blink-light : (n : ℕ) (r : Registers) → light (blink n r) ≡ light r ++ flashes n
unfolding blink
blink-light zero r = sym (append-nil (light r))
blink-light (suc n) r =
    blink-light n (led_off (led_on r))
    ∙ ap (λ x. x ++ flashes n) (led_off-light (led_on r) ∙ ap (λ x. x ++ 0 ∷ []) (led_on-light r))
    ∙ append_assoc (light r ++ 1 ∷ []) (0 ∷ []) (flashes n)
    ∙ append_assoc (light r) (1 ∷ []) (0 ∷ flashes n)

-- The other pins keep what they drive.
blink_elsewhere :
    (n k : ℕ) (r : Registers) → k < 16 → k ≢ 6 → bit (blink n r).portd k ≡ bit r.portd k
unfolding blink led_on led_off
blink_elsewhere zero k r small other = refl
blink_elsewhere (suc n) k r small other =
    blink_elsewhere n k (led_off (led_on r)) small other
    ∙ ground (arith, bit-clear_bit (set_bit r.portd 6) 6 k, bit-set_bit r.portd 6 k)
