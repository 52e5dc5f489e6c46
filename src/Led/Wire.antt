-- ===== src/Led/Wire.antt =====
-- What the chips read off the two pins: the chips sample SIN on each rising edge of SCLK.
use iss_notify_firmware.Common.{
  ℕ, zero, suc, sym, false, ◌+◌, ◌-◌, ◌*◌, ◌/◌, ◌<◌, true, ◌&&◌, List, [], ◌∷◌, ◌++◌, ◌==◌, ==_iff,
  if◌then◌else◌, ◌≡◌, refl, arith, bit, set_bit, clear_bit, append-nil, append_assoc, ap, ◌∙◌,
  Bool-cases, inl, inr,
}
use iss_notify_firmware.Common.Bits.{bit-test, all_below, all_below_sound}
use iss_notify_firmware.Led.{
  LedPins, sin_high, sin_low, sclk_high, sclk_low, shift_bit, shift_bits, write_word,
}

-- What one change of the port, from `u` to `v`, shifts in.
abbrev sampled : ℕ → ℕ → List ℕ
sampled u v = if bit u 0 == 0 && bit v 0 == 1 then bit v 1 ∷ [] else []

-- The bits of a whole trail, oldest first, where `v` is the present value.
abbrev pub received : ℕ → List ℕ → List ℕ
received v [] = []
received v (u ∷ t) = received u t ++ sampled u v

abbrev pub clocked_in : LedPins → List ℕ
clocked_in p = received p.portf p.trail

-- Between two words the clock is low; a port is a byte.
pub record IsIdle (p : LedPins) : Type 0 where
  pub byte : p.portf < 256
  pub clock_low : bit p.portf 0 ≡ 0

-- The low `n` bits of a word, most significant first.
abbrev pub bits : ℕ → ℕ → List ℕ
bits zero w = []
bits (suc n) w = bit w n ∷ bits n w

set_one_table : all_below 256 (λ x. set_bit x 1 == x + 2 - bit x 1 * 2) ≡ true
unfolding all_below
set_one_table = refl

clear_one_table : all_below 256 (λ x. clear_bit x 1 == x - bit x 1 * 2) ≡ true
unfolding all_below
clear_one_table = refl

set_zero_table : all_below 256 (λ x. set_bit x 0 == x + 1 - bit x 0) ≡ true
unfolding all_below
set_zero_table = refl

clear_zero_table : all_below 256 (λ x. clear_bit x 0 == x - bit x 0) ≡ true
unfolding all_below
clear_zero_table = refl

set_one : (x : ℕ) → x < 256 → set_bit x 1 ≡ x + 2 - bit x 1 * 2
set_one x h = (==_iff _ _).0 (all_below_sound 256 _ x set_one_table h)

pub clear_one : (x : ℕ) → x < 256 → clear_bit x 1 ≡ x - bit x 1 * 2
clear_one x h = (==_iff _ _).0 (all_below_sound 256 _ x clear_one_table h)

pub set_zero : (x : ℕ) → x < 256 → set_bit x 0 ≡ x + 1 - bit x 0
set_zero x h = (==_iff _ _).0 (all_below_sound 256 _ x set_zero_table h)

pub clear_zero : (x : ℕ) → x < 256 → clear_bit x 0 ≡ x - bit x 0
clear_zero x h = (==_iff _ _).0 (all_below_sound 256 _ x clear_zero_table h)

-- What writing leaves: the bits that went over the wire, the pins at rest, the others as before.
pub record Wrote (p : LedPins) (bs : List ℕ) (q : LedPins) : Type 0 where
  pub wire : clocked_in q ≡ clocked_in p ++ bs
  pub idle : IsIdle q
  pub others : q.portf / 4 ≡ p.portf / 4
  pub direction : q.ddrf ≡ p.ddrf

pub Wrote-trans :
    {p q r : LedPins} (bs cs : List ℕ) → Wrote p bs q → Wrote q cs r → Wrote p (bs ++ cs) r
Wrote-trans {p} bs cs a b = record {
  wire = b.wire ∙ ap (λ t. t ++ cs) a.wire ∙ append_assoc (clocked_in p) bs cs;
  idle = b.idle;
  others = b.others ∙ a.others;
  direction = b.direction ∙ a.direction;
}

pub sin_low-Wrote : (p : LedPins) → IsIdle p → Wrote p [] (sin_low p)
unfolding sin_low
sin_low-Wrote p h = ground (arith, clear_one p.portf, append-nil (clocked_in p))

-- A clock pulse while SIN is low, and one while it is high.
shift_zero-Wrote : (p : LedPins) → IsIdle p → Wrote p (0 ∷ []) (sclk_low (sclk_high (sin_low p)))
unfolding sin_low sclk_low sclk_high
shift_zero-Wrote p h =
    let v = clear_bit p.portf 1 in
    ground (
      arith,
      clear_one p.portf,
      set_zero v,
      clear_zero (set_bit v 0),
      append-nil (clocked_in p),
      append-nil (clocked_in p ++ 0 ∷ []),
    )

shift_one-Wrote :
    (p : LedPins) → IsIdle p → Wrote p (1 ∷ []) (sclk_low (sclk_high (sin_high (sin_low p))))
unfolding sin_low sin_high sclk_low sclk_high
shift_one-Wrote p h =
    let v = clear_bit p.portf 1 in
    let u = set_bit v 1 in
    ground (
      arith,
      clear_one p.portf,
      set_one v,
      set_zero u,
      clear_zero (set_bit u 0),
      append-nil (clocked_in p),
      append-nil (clocked_in p ++ 1 ∷ []),
    )

bit-one : (w i : ℕ) → (bit w i == 0) ≡ false → bit w i ≡ 1
bit-one w i h = ground arith

-- One round of the loop shifts in one bit of the word.
shift_bit-Wrote : (w i : ℕ) (p : LedPins) → IsIdle p → Wrote p (bit w i ∷ []) (shift_bit w i p)
unfolding shift_bit
shift_bit-Wrote w i p h = elim (Bool-cases (bit w i == 0)) [
  | inl e ↦ rw (bit-test, e, (==_iff (bit w i) 0).0 e) (shift_zero-Wrote p h)
  | inr e ↦ rw (bit-test, e, bit-one w i e) (shift_one-Wrote p h)
]

-- The loop shifts in the low `n` bits.
pub shift_bits-Wrote : (n w : ℕ) (p : LedPins) → IsIdle p → Wrote p (bits n w) (shift_bits w n p)
unfolding shift_bits
shift_bits-Wrote zero w p h = record {
  wire = sym (append-nil (clocked_in p));
  idle = h;
  others = refl;
  direction = refl;
}
shift_bits-Wrote (suc n) w p h =
    let first = shift_bit-Wrote w n p h in
    Wrote-trans (bit w n ∷ []) (bits n w) first (shift_bits-Wrote n w (shift_bit w n p) first.idle)

pub write_word-Wrote : (w n : ℕ) (p : LedPins) → IsIdle p → Wrote p (bits n w) (write_word w n p)
unfolding write_word
write_word-Wrote w n p h =
    let loop = shift_bits-Wrote n w p h in
    rw (← append-nil (bits n w))
      (Wrote-trans (bits n w) [] loop (sin_low-Wrote (shift_bits w n p) loop.idle))
