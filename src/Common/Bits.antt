-- ===== src/Common/Bits.antt =====
-- Laws of `&` and `|` at variables, from the digit recursion that the native operations stand for.
use Prim.Native.Nat.{ℕ, zero, suc, ◌+◌, ◌-◌, ◌*◌, ◌/◌, ◌%◌, ◌^◌, ◌≤◌, ◌<◌, min, max}
use Prim.Native.Nat.{bit_and, bit_or, digits, bit_and-bitwise, bit_or-bitwise}
use mathlib.Core.Path.{◌≡◌, refl, ap}
use mathlib.Core.Bool.{Bool, true, ◌&&◌}
use native.Mathlib.Nat.{pow-succ', one-le-pow, div-div-eq-div-mul, mod_def, div-add-mod}
use native.Mathlib.Omega.{arith}
use iss_notify_firmware.Common.Tests.{◌==◌, ==_iff, if◌then◌else◌}
use iss_notify_firmware.Common.Words.{bit, set_bit, clear_bit}

-- A test of the numbers below a limit, and what its success shows.
unfoldable pub all_below : ℕ → (ℕ → Bool) → Bool
all_below zero test = true
all_below (suc k) test = test k && all_below k test

pub all_below_sound :
    (limit : ℕ) (test : ℕ → Bool) (v : ℕ) → all_below limit test ≡ true → v < limit → test v ≡ true
unfolding all_below
all_below_sound zero test v passed small = absurd (omega arith)
all_below_sound (suc k) test v passed small = ground (arith, all_below_sound k test v)

module _ (z : ℕ → ℕ) (f : ℕ → ℕ → ℕ) where
  -- More fuel than the first number changes nothing.
  digits-fuel : (n m a b : ℕ) → a ≤ n → a ≤ m → digits z f n a b ≡ digits z f m a b
  digits-fuel zero zero a b p q = refl
  digits-fuel zero (suc m) zero b p q = refl
  digits-fuel zero (suc m) (suc a) b p q = absurd (omega arith)
  digits-fuel (suc n) zero zero b p q = refl
  digits-fuel (suc n) zero (suc a) b p q = absurd (omega arith)
  digits-fuel (suc n) (suc m) zero b p q = refl
  digits-fuel (suc n) (suc m) (suc a) b p q =
      omega (arith, digits-fuel n m (suc a / 2) (b / 2) (omega arith) (omega arith))

-- The lowest digit of `&`.
pub bit_and-low : (a b : ℕ) → bit_and a b ≡ bit_and (a / 2) (b / 2) * 2 + min (a % 2) (b % 2)
bit_and-low zero b = omega (arith, bit_and-bitwise 0 b, bit_and-bitwise 0 (b / 2))
bit_and-low (suc a) b = omega (
  arith,
  bit_and-bitwise (suc a) b,
  bit_and-bitwise (suc a / 2) (b / 2),
  digits-fuel (λ y. 0) min a (suc a / 2) (suc a / 2) (b / 2) (omega arith) (omega arith),
)

-- The lowest digit of `|`.
pub bit_or-low : (a b : ℕ) → bit_or a b ≡ bit_or (a / 2) (b / 2) * 2 + max (a % 2) (b % 2)
bit_or-low zero b = omega (arith, bit_or-bitwise 0 b, bit_or-bitwise 0 (b / 2))
bit_or-low (suc a) b = omega (
  arith,
  bit_or-bitwise (suc a) b,
  bit_or-bitwise (suc a / 2) (b / 2),
  digits-fuel (λ y. y) max a (suc a / 2) (suc a / 2) (b / 2) (omega arith) (omega arith),
)

zero-bit_and : (b : ℕ) → bit_and 0 b ≡ 0
zero-bit_and b = bit_and-bitwise 0 b

bit_and-zero_below : (n a : ℕ) → a ≤ n → bit_and a 0 ≡ 0
bit_and-zero_below n zero h = refl
bit_and-zero_below zero (suc a) h = absurd (omega arith)
bit_and-zero_below (suc n) (suc a) h =
    omega (arith, bit_and-low (suc a) 0, bit_and-zero_below n (suc a / 2) (omega arith))

bit_and-zero : (a : ℕ) → bit_and a 0 ≡ 0
bit_and-zero a = bit_and-zero_below a a (omega arith)

double-div : (p : ℕ) → 2 * p / 2 ≡ p
double-div p = omega arith

half-mask : (p : ℕ) → 1 ≤ p → (2 * p - 1) / 2 ≡ p - 1
half-mask p h = omega arith

-- `a & (1 << k)` keeps bit `k` and no other.
bit_and-pow : (k a : ℕ) → bit_and a (2 ^ k) ≡ (a / 2 ^ k % 2) * 2 ^ k
bit_and-pow zero a = omega (arith, bit_and-low a 1, bit_and-zero (a / 2))
bit_and-pow (suc k) a =
    rw (pow-succ', ← div-div-eq-div-mul a 2 (2 ^ k))
      (omega (
        arith,
        bit_and-low a (2 * 2 ^ k),
        ap (bit_and (a / 2)) (double-div (2 ^ k)),
        bit_and-pow k (a / 2),
      ))

mod-double : (a p : ℕ) → a % (2 * p) ≡ a / 2 % p * 2 + a % 2
mod-double a p = rw (mod_def, ← div-div-eq-div-mul a 2 p) (omega (arith, div-add-mod (a / 2) p))

-- `a & (2 ^ k - 1)` is the remainder by `2 ^ k`.
pub bit_and-mask : (k a : ℕ) → bit_and a (2 ^ k - 1) ≡ a % 2 ^ k
bit_and-mask zero a = omega (arith, bit_and-zero a)
bit_and-mask (suc k) a =
    rw (pow-succ', mod-double)
      (omega (
        arith,
        bit_and-low a (2 * 2 ^ k - 1),
        one-le-pow k 2 (omega arith),
        ap (bit_and (a / 2)) (half-mask (2 ^ k) (one-le-pow k 2 (omega arith))),
        bit_and-mask k (a / 2),
      ))

-- `(word & (1 << i)) != 0` is the test of bit `i`.
pub bit-test : (w i : ℕ) → (bit_and w (2 ^ i) == 0) ≡ (bit w i == 0)
bit-test w i = ground (arith, bit_and-pow i w, one-le-pow i 2)

-- Each bit of `&` and of `|`.
bit-bit_and : (k a b : ℕ) → bit (bit_and a b) k ≡ min (bit a k) (bit b k)
bit-bit_and zero a b = omega (arith, bit_and-low a b)
bit-bit_and (suc k) a b =
    let half : bit_and a b / 2 ≡ bit_and (a / 2) (b / 2) = omega (arith, bit_and-low a b) in
    rw
      (
        pow-succ',
        ← div-div-eq-div-mul (bit_and a b) 2 (2 ^ k),
        ← div-div-eq-div-mul a 2 (2 ^ k),
        ← div-div-eq-div-mul b 2 (2 ^ k),
        half,
      )
      (bit-bit_and k (a / 2) (b / 2))

bit-bit_or : (k a b : ℕ) → bit (bit_or a b) k ≡ max (bit a k) (bit b k)
bit-bit_or zero a b = omega (arith, bit_or-low a b)
bit-bit_or (suc k) a b =
    let half : bit_or a b / 2 ≡ bit_or (a / 2) (b / 2) = omega (arith, bit_or-low a b) in
    rw
      (
        pow-succ',
        ← div-div-eq-div-mul (bit_or a b) 2 (2 ^ k),
        ← div-div-eq-div-mul a 2 (2 ^ k),
        ← div-div-eq-div-mul b 2 (2 ^ k),
        half,
      )
      (bit-bit_or k (a / 2) (b / 2))

pow_table :
    all_below 256 (λ x. bit (2 ^ (x / 16)) (x % 16) == (if x % 16 == x / 16 then 1 else 0)) ≡ true
unfolding all_below
pow_table = refl

mask_table :
    all_below 256
      (λ x. bit (2 ^ 16 - 1 - 2 ^ (x / 16)) (x % 16) == (if x % 16 == x / 16 then 0 else 1))
    ≡ true
unfolding all_below
mask_table = refl

-- Setting or clearing bit `j` leaves each other bit `k` as it was.
pub bit-set_bit :
    (x j k : ℕ) → j < 16 → k < 16 → bit (set_bit x j) k ≡ (if k == j then 1 else bit x k)
bit-set_bit x j k hj hk =
    let row : (j * 16 + k) / 16 ≡ j = omega arith in
    let column : (j * 16 + k) % 16 ≡ k = omega arith in
    let entry = (==_iff _ _).0 (all_below_sound 256 _ (j * 16 + k) pow_table (omega arith)) in
    let known : bit (2 ^ j) k ≡ (if k == j then 1 else 0) = simp (row, column) at entry in
    rw (bit-bit_or, known) (ground arith)

pub bit-clear_bit :
    (x j k : ℕ) → j < 16 → k < 16 → bit (clear_bit x j) k ≡ (if k == j then 0 else bit x k)
bit-clear_bit x j k hj hk =
    let row : (j * 16 + k) / 16 ≡ j = omega arith in
    let column : (j * 16 + k) % 16 ≡ k = omega arith in
    let entry = (==_iff _ _).0 (all_below_sound 256 _ (j * 16 + k) mask_table (omega arith)) in
    let known : bit (2 ^ 16 - 1 - 2 ^ j) k ≡ (if k == j then 0 else 1) =
      simp (row, column) at entry in
    rw (bit-bit_and, known) (ground arith)
