-- ===== src/Animations/Planes.antt =====
-- The bit planes that `set_data` makes of the colours.
use iss_notify_firmware.Common.{
  ℕ, zero, suc, ◌+◌, ◌<◌, ◌≤◌, List, [], ◌∷◌, ◌==◌, if◌then◌else◌, ◌≡◌, refl, arith, bit, set_bit,
  ap, ◌∙◌, ◌≢◌, length, get_or, replicate,
}
use iss_notify_firmware.Common.Bits.{bit-set_bit}
use iss_notify_firmware.Animations.Driver.{
  Driver, plane, mark_levels, mark_all, red_part, green_part, blue_part, set_data,
}

-- The levels in which a brightness is lit: bit `k` stands for level `k`.
abbrev pub levels : ℕ → ℕ
levels v =
    if v == 1
    then 0b0001
    else if v == 2
    then 0b0010
    else if v == 3
    then 0b0100
    else if v == 4
    then 0b0110
    else if v == 5
    then 0b1000
    else if v == 6
    then 0b1010
    else if v == 7
    then 0b1110
    else if v == 8
    then 0b1111
    else 0

-- One word of a row, for a brightness.
abbrev marked : ℕ → ℕ → ℕ → ℕ → ℕ
marked v i k x = if bit (levels v) k == 1 then set_bit x i else x

mark_levels_lem :
    (v i a b c d : ℕ)
    → mark_levels v i (a ∷ b ∷ c ∷ d ∷ [])
      ≡ marked v i 0 a ∷ marked v i 1 b ∷ marked v i 2 c ∷ marked v i 3 d ∷ []
unfolding mark_levels
mark_levels_lem v i a b c d = ground arith

-- One word of a row over all LEDs.
run : (ℕ → ℕ) → ℕ → ℕ → List ℕ → ℕ → ℕ
run part k i [] x = x
run part k i (color ∷ colors) x = run part k (i + 1) colors (marked (part color) i k x)

mark_all-run :
    (part : ℕ → ℕ) (i : ℕ) (colors : List ℕ) (a b c d : ℕ)
    → mark_all part i colors (a ∷ b ∷ c ∷ d ∷ [])
      ≡ run part 0 i colors a
        ∷ run part 1 i colors b
        ∷ run part 2 i colors c
        ∷ run part 3 i colors d
        ∷ []
unfolding mark_all run
mark_all-run part i [] a b c d = refl
mark_all-run part i (color ∷ colors) a b c d =
    let v = part color in
    ap (mark_all part (i + 1) colors) (mark_levels_lem v i a b c d)
    ∙ mark_all-run part (i + 1) colors (marked v i 0 a) (marked v i 1 b) (marked v i 2 c)
        (marked v i 3 d)

bit-marked_other : (v i k x m : ℕ) → i < 16 → m < 16 → m ≢ i → bit (marked v i k x) m ≡ bit x m
bit-marked_other v i k x m hi hm ne = ground (arith, bit-set_bit x i m)

bit-marked_self :
    (v i k x m : ℕ) → i < 16 → m ≡ i → bit x m ≡ 0 → bit (marked v i k x) m ≡ bit (levels v) k
bit-marked_self v i k x m hi e off = ground (arith, bit-set_bit x i m)

bit-run_before :
    (part : ℕ → ℕ) (k i : ℕ) (colors : List ℕ) (x m : ℕ)
    → i + length colors ≤ 16
    → m < i
    → bit (run part k i colors x) m ≡ bit x m
unfolding run
bit-run_before part k i [] x m h less = refl
bit-run_before part k i (color ∷ colors) x m h less =
    bit-run_before part k (i + 1) colors (marked (part color) i k x) m (omega arith) (omega arith)
    ∙ bit-marked_other (part color) i k x m (omega arith) (omega arith) (λ e. omega arith)

bit-run :
    (part : ℕ → ℕ) (k i : ℕ) (colors : List ℕ) (x n m : ℕ)
    → i + length colors ≤ 16
    → n < length colors
    → m ≡ i + n
    → bit x m ≡ 0
    → bit (run part k i colors x) m ≡ bit (levels (part (get_or colors n 0))) k
unfolding run
bit-run part k i [] x n m h less e off = absurd (omega arith)
bit-run part k i (color ∷ colors) x zero m h less e off =
    bit-run_before part k (i + 1) colors (marked (part color) i k x) m (omega arith) (omega arith)
    ∙ bit-marked_self (part color) i k x m (omega arith) (omega arith) off
bit-run part k i (color ∷ colors) x (suc n) m h less e off =
    bit-run part k (i + 1) colors (marked (part color) i k x) n m (omega arith) (omega arith)
      (omega arith)
      (bit-marked_other (part color) i k x m (omega arith) (omega arith) (λ q. omega arith) ∙ off)

-- A word of the plane of one colour.
plane_lem :
    (part : ℕ → ℕ) (colors : List ℕ) (k : ℕ)
    → k < 4
    → get_or (mark_all part 0 colors (replicate 4 0)) k 0 ≡ run part k 0 colors 0
plane_lem part colors zero h = ap (λ r. get_or r 0 0) (mark_all-run part 0 colors 0 0 0 0)
plane_lem part colors (suc zero) h = ap (λ r. get_or r 1 0) (mark_all-run part 0 colors 0 0 0 0)
plane_lem part colors (suc (suc zero)) h =
    ap (λ r. get_or r 2 0) (mark_all-run part 0 colors 0 0 0 0)
plane_lem part colors (suc (suc (suc zero))) h =
    ap (λ r. get_or r 3 0) (mark_all-run part 0 colors 0 0 0 0)
plane_lem part colors (suc (suc (suc (suc k)))) h = absurd (omega arith)

bit-plane :
    (part : ℕ → ℕ) (colors : List ℕ) (k n : ℕ)
    → k < 4
    → length colors ≤ 16
    → n < length colors
    → bit (get_or (mark_all part 0 colors (replicate 4 0)) k 0) n
      ≡ bit (levels (part (get_or colors n 0))) k
bit-plane part colors k n h few less =
    ap (λ w. bit w n) (plane_lem part colors k h)
    ∙ bit-run part k 0 colors 0 n n (omega arith) less (omega arith) (omega arith)

-- For 12 colours, each level below 4 and each LED below 12: bit `n` of the word of a level is set,
-- for each of the three colours, exactly if the brightness of LED `n` in that colour is lit in
-- this level, by the table of nine brightnesses; a greater brightness is dark.
pub set_data_lem :
    (colors : List ℕ) (d : Driver) (k n : ℕ)
    → length colors ≡ 12
    → k < 4
    → n < 12
    → let planes = (set_data colors d).color_data in
      let color = get_or colors n 0 in
      (bit (plane planes 0 k) n ≡ bit (levels (red_part color)) k)
      × (bit (plane planes 1 k) n ≡ bit (levels (green_part color)) k)
      × (bit (plane planes 2 k) n ≡ bit (levels (blue_part color)) k)
unfolding set_data
set_data_lem colors d k n all h less = (
  bit-plane red_part colors k n h (omega arith) (omega arith),
  bit-plane green_part colors k n h (omega arith) (omega arith),
  bit-plane blue_part colors k n h (omega arith) (omega arith),
)
