-- ===== src/Animations/Wire.antt =====
-- What the LED chips of the test board read off the wire.
use iss_notify_firmware.Common.{
  ℕ, ◌+◌, true, ◌&&◌, List, [], ◌∷◌, ◌++◌, ◌==◌, ltb, if◌then◌else◌, ◌≡◌, refl, arith, bit, set_bit,
  clear_bit, append-nil, append_assoc, ap, sym, subst, ◌∙◌, ◌≤◌, ◌%◌,
}
use iss_notify_firmware.Common.Bits.{all_below, all_below_sound, bit-set_bit, bit-clear_bit}
use iss_notify_firmware.Led.{LedPins, put, sin_low, sclk_high, sclk_low, shift_bits}
use iss_notify_firmware.Led.Wire.{
  IsIdle, Wrote, bits, clocked_in, clear_one, set_zero, clear_zero, sin_low-Wrote, shift_bits-Wrote,
}
use iss_notify_firmware.Animations.Driver.{
  Driver, plane, latch_high, latch_low, latch, pulse, shift_out, shift_level, blank_high, blank_low,
  next_level, timer1_isr,
}

-- Bits that went over the wire, with the clock low behind them.
pub record Clocked (p : LedPins) (bs : List ℕ) (q : LedPins) : Type 0 where
  pub wire : clocked_in q ≡ clocked_in p ++ bs
  pub idle : IsIdle q

Clocked-trans :
    {p q r : LedPins} (bs cs : List ℕ) → Clocked p bs q → Clocked q cs r → Clocked p (bs ++ cs) r
Clocked-trans {p} bs cs a b = record {
  wire = b.wire ∙ ap (λ t. t ++ cs) a.wire ∙ append_assoc (clocked_in p) bs cs;
  idle = b.idle;
}

of_Wrote : {p q : LedPins} {bs : List ℕ} → Wrote p bs q → Clocked p bs q
of_Wrote w = record { wire = w.wire; idle = w.idle }

high_table : all_below 256 (λ x. ltb (set_bit x 4) 256 && ltb (set_bit x 5) 256) ≡ true
unfolding all_below
high_table = refl

low_table : all_below 256 (λ x. ltb (clear_bit x 4) 256 && ltb (clear_bit x 5) 256) ≡ true
unfolding all_below
low_table = refl

Clocked-latch_high : (p : LedPins) → IsIdle p → Clocked p [] (latch_high p)
unfolding latch_high put
Clocked-latch_high p h = ground (
  arith,
  bit-set_bit p.portf 4 0,
  all_below_sound 256 _ p.portf high_table,
  append-nil (clocked_in p),
)

Clocked-latch_low : (p : LedPins) → IsIdle p → Clocked p [] (latch_low p)
unfolding latch_low put
Clocked-latch_low p h = ground (
  arith,
  bit-clear_bit p.portf 4 0,
  all_below_sound 256 _ p.portf low_table,
  append-nil (clocked_in p),
)

Clocked-blank_high : (p : LedPins) → IsIdle p → Clocked p [] (blank_high p)
unfolding blank_high put
Clocked-blank_high p h = ground (
  arith,
  bit-set_bit p.portf 5 0,
  all_below_sound 256 _ p.portf high_table,
  append-nil (clocked_in p),
)

Clocked-blank_low : (p : LedPins) → IsIdle p → Clocked p [] (blank_low p)
unfolding blank_low put
Clocked-blank_low p h = ground (
  arith,
  bit-clear_bit p.portf 5 0,
  all_below_sound 256 _ p.portf low_table,
  append-nil (clocked_in p),
)

Clocked-latch : (p : LedPins) → IsIdle p → Clocked p [] (latch p)
unfolding latch
Clocked-latch p h =
    let up = Clocked-latch_high p h in
    Clocked-trans [] [] up (Clocked-latch_low (latch_high p) up.idle)

-- A pulse while SIN is low.
Clocked-pulse :
    (p : LedPins)
    → IsIdle p
    → bit p.portf 1 ≡ 0
    → Clocked p (0 ∷ []) (pulse p) × (bit (pulse p).portf 1 ≡ 0)
unfolding pulse sclk_high sclk_low put
Clocked-pulse p h low =
    ground
      (arith, set_zero p.portf, clear_zero (set_bit p.portf 0), append-nil (clocked_in p ++ 0 ∷ []))

sin_low-clears : (p : LedPins) → IsIdle p → bit (sin_low p).portf 1 ≡ 0
unfolding sin_low
sin_low-clears p h = omega (arith, clear_one p.portf)

pulses :
    (p : LedPins)
    → IsIdle p
    → bit p.portf 1 ≡ 0
    → Clocked p (0 ∷ 0 ∷ 0 ∷ []) (pulse (pulse (pulse p)))
pulses p h low =
    let (a, la) = Clocked-pulse p h low in
    let (b, lb) = Clocked-pulse (pulse p) a.idle la in
    let (c, lc) = Clocked-pulse (pulse (pulse p)) b.idle lb in
    Clocked-trans (0 ∷ []) (0 ∷ 0 ∷ []) a (Clocked-trans (0 ∷ []) (0 ∷ []) b c)

-- A word on the wire: three zeros, and 13 bits.
abbrev framed : ℕ → List ℕ
framed word = 0 ∷ 0 ∷ 0 ∷ bits 13 word

Clocked-shift_out : (word : ℕ) (p : LedPins) → IsIdle p → Clocked p (framed word) (shift_out word p)
unfolding shift_out
Clocked-shift_out word p h =
    let a = Clocked-latch p h in
    let b = of_Wrote (sin_low-Wrote (latch p) a.idle) in
    let c = pulses (sin_low (latch p)) b.idle (sin_low-clears (latch p) a.idle) in
    let q = pulse (pulse (pulse (sin_low (latch p)))) in
    let d = of_Wrote (shift_bits-Wrote 13 word q c.idle) in
    let e = Clocked-latch (shift_bits word 13 q) d.idle in
    let head = Clocked-trans [] (0 ∷ 0 ∷ 0 ∷ []) (Clocked-trans [] [] a b) c in
    rw (← append-nil (framed word))
      (Clocked-trans (framed word) [] (Clocked-trans (0 ∷ 0 ∷ 0 ∷ []) (bits 13 word) head d) e)

-- The three words of a level, the last colour first.
abbrev pub level_bits : List (List ℕ) → ℕ → List ℕ
level_bits planes k =
    framed (plane planes 2 k) ++ (framed (plane planes 1 k) ++ framed (plane planes 0 k))

Clocked-shift_level :
    (d : Driver) (p : LedPins)
    → IsIdle p
    → Clocked p (level_bits d.color_data d.level) (shift_level d p)
unfolding shift_level
Clocked-shift_level d p h =
    let w = λ (j : ℕ). plane d.color_data j d.level in
    let a = Clocked-shift_out (w 2) p h in
    let b = Clocked-shift_out (w 1) (shift_out (w 2) p) a.idle in
    let c = Clocked-shift_out (w 0) (shift_out (w 1) (shift_out (w 2) p)) b.idle in
    Clocked-trans (framed (w 2)) (framed (w 1) ++ framed (w 0)) a
      (Clocked-trans (framed (w 1)) (framed (w 0)) b c)

-- The timer's next limit, by level.
abbrev pub limit : ℕ → ℕ
limit k = if k == 3 then 50 else if k == 2 then 25 else if k == 1 then 15 else 8

next_level_lem :
    (d : Driver)
    → d.level ≤ 3
    → (next_level d).pins ≡ shift_level d d.pins
      × ((next_level d).level ≡ (d.level + 3) % 4)
      × ((next_level d).ocr1a ≡ limit d.level)
      × ((next_level d).color_data ≡ d.color_data)
unfolding next_level
next_level_lem d h = ground arith

-- With port F a byte and the clock pin low, and a level of at most 3, the timer's interrupt clocks
-- the three words of that level into the chips, that of blue first and that of red last, each as
-- three zeros and 13 bits, most significant first; the next level is one less, or 3 behind 0; the
-- timer's limit becomes 50, 25, 15 or 8 by the old level, and the bit planes stay.
pub timer1_isr_lem :
    (d : Driver)
    → IsIdle d.pins
    → d.level ≤ 3
    → Clocked d.pins (level_bits d.color_data d.level) (timer1_isr d).pins
      × ((timer1_isr d).level ≡ (d.level + 3) % 4)
      × ((timer1_isr d).ocr1a ≡ limit d.level)
      × ((timer1_isr d).color_data ≡ d.color_data)
unfolding timer1_isr
timer1_isr_lem d h small =
    let d' = record d { pins = blank_high d.pins } in
    let bs = level_bits d.color_data d.level in
    let (pins, level, ocr, planes) = next_level_lem d' small in
    let a = Clocked-blank_high d.pins h in
    let b = Clocked-shift_level d' d'.pins a.idle in
    let c = Clocked-blank_low (shift_level d' d'.pins) b.idle in
    (
      subst (λ q. Clocked d.pins bs (blank_low q)) (sym pins)
          (rw (← append-nil bs) (Clocked-trans bs [] (Clocked-trans [] bs a b) c)),
      level,
      ocr,
      planes,
    )
