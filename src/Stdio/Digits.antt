-- ===== src/Stdio/Digits.antt =====
-- Printed numbers are scanned back.
use native.Mathlib.Nat.{pow-succ'}
use iss_notify_firmware.Common.{
  ℕ, zero, suc, ◌+◌, ◌/◌, ◌%◌, ◌^◌, ◌<◌, true, false, List, [], ◌∷◌, ◌++◌, some, ◌≡◌, refl, ap,
  arith, Bool-cases, inl, inr, ltb,
}
use iss_notify_firmware.Stdio.Scan.{is_digit, is_space, skip_space, scan_digits, scan_integer}
use iss_notify_firmware.Stdio.Print.{digits, unsigned_decimal, two_digits}

-- The byte behind a number, if there is one, is no digit.
abbrev pub Stops : List ℕ → Type 0
Stops [] = Unit
Stops (c ∷ s) = is_digit c ≡ false

digits-append : (f n : ℕ) (xs rest : List ℕ) → digits f n xs ++ rest ≡ digits f n (xs ++ rest)
unfolding digits
digits-append zero n xs rest = refl
digits-append (suc f) n xs rest =
    ground (arith, digits-append f (n / 10) ((b'0' + n % 10) ∷ xs) rest)

-- Reading the last digit behind the others gives the number.
scan_last : (n : ℕ) (s : List ℕ) → scan_digits (n / 10) ((b'0' + n % 10) ∷ s) ≡ scan_digits n s
unfolding scan_digits
scan_last n s = ground arith

scan_one : (n : ℕ) (s : List ℕ) → n < 10 → scan_digits 0 ((b'0' + n) ∷ s) ≡ scan_digits n s
unfolding scan_digits
scan_one n s h = ground arith

scan_digits-digits :
    (f n : ℕ) (s : List ℕ) → n < 10 ^ f → scan_digits 0 (digits f n s) ≡ scan_digits n s
unfolding digits
scan_digits-digits zero n s h = ap (λ k. scan_digits k s) (omega arith)
scan_digits-digits (suc f) n s h = ground (
  arith,
  pow-succ' 10 f,
  scan_digits-digits f (n / 10) ((b'0' + n % 10) ∷ s),
  scan_last n s,
  scan_one n s,
)

scan_digits-zero : (s : List ℕ) → scan_digits 0 (b'0' ∷ s) ≡ scan_digits 0 s
unfolding scan_digits
scan_digits-zero s = refl

unsigned_digits :
    (n : ℕ) (rest : List ℕ)
    → n < 10 ^ 10
    → scan_digits 0 (unsigned_decimal n ++ rest) ≡ scan_digits n rest
unfolding unsigned_decimal
unsigned_digits n rest h = rw (digits-append 10 n [] rest) (scan_digits-digits 10 n rest h)

scan_digits-Stops : (v : ℕ) (rest : List ℕ) → Stops rest → scan_digits v rest ≡ (v, rest)
unfolding scan_digits
scan_digits-Stops v [] h = refl
scan_digits-Stops v (c ∷ s) h = rw h

-- The text begins with a digit.
abbrev BeginsWithDigit : List ℕ → Type 0
BeginsWithDigit [] = ⊥
BeginsWithDigit (c ∷ s) = is_digit c ≡ true

digits-BeginsWithDigit : (f n : ℕ) (s : List ℕ) → BeginsWithDigit s → BeginsWithDigit (digits f n s)
unfolding digits
digits-BeginsWithDigit zero n s h = h
digits-BeginsWithDigit (suc f) n s h =
    ground (arith, digits-BeginsWithDigit f (n / 10) ((b'0' + n % 10) ∷ s))

digits-suc-BeginsWithDigit : (f n : ℕ) (s : List ℕ) → BeginsWithDigit (digits (suc f) n s)
unfolding digits
digits-suc-BeginsWithDigit f n s =
    ground (arith, digits-BeginsWithDigit f (n / 10) ((b'0' + n % 10) ∷ s))

scan_digits-head :
    (m : ℕ) (c : ℕ) (s : List ℕ)
    → is_digit c ≡ true
    → scan_integer m (c ∷ s) ≡ (some ((scan_digits 0 (c ∷ s)).0 % m), (scan_digits 0 (c ∷ s)).1)
unfolding scan_integer
scan_digits-head m c s h = ground arith

-- On such a text the conversion is the reading of the digits.
scan_integer-digits :
    (m : ℕ) (s : List ℕ)
    → BeginsWithDigit s
    → scan_integer m s ≡ (some ((scan_digits 0 s).0 % m), (scan_digits 0 s).1)
scan_integer-digits m [] h = absurd h
scan_integer-digits m (c ∷ s) h = scan_digits-head m c s h

-- A number printed by %u or %lu is read back, cut off to the word, up to what follows it.
pub scan_integer-unsigned_decimal :
    (m n : ℕ) (rest : List ℕ)
    → n < 10 ^ 10
    → Stops rest
    → scan_integer m (unsigned_decimal n ++ rest) ≡ (some (n % m), rest)
unfolding unsigned_decimal
scan_integer-unsigned_decimal m n rest h stops = rw (
  digits-append 10 n [] rest,
  scan_integer-digits m _ (digits-suc-BeginsWithDigit 9 n rest),
  scan_digits-digits 10 n rest h,
  scan_digits-Stops n rest stops,
)

-- So is one printed by %02d.
pub scan_integer-two_digits :
    (m n : ℕ) (rest : List ℕ)
    → n < 10 ^ 10
    → Stops rest
    → scan_integer m (two_digits n ++ rest) ≡ (some (n % m), rest)
unfolding two_digits
scan_integer-two_digits m n rest h stops = elim (Bool-cases (ltb n 10)) [
  | inl e ↦ rw (
    e,
    scan_digits-head m b'0' (unsigned_decimal n ++ rest) refl,
    scan_digits-zero,
    unsigned_digits n rest h,
    scan_digits-Stops n rest stops,
  )
  | inr e ↦ rw e (scan_integer-unsigned_decimal m n rest h stops)
]

-- The text does not begin with white space.
abbrev pub NoSpace : List ℕ → Type 0
NoSpace [] = Unit
NoSpace (c ∷ s) = is_space c ≡ false

pub skip_space-NoSpace : (s : List ℕ) → NoSpace s → skip_space s ≡ s
unfolding skip_space
skip_space-NoSpace [] h = refl
skip_space-NoSpace (c ∷ s) h = rw h

digit-NoSpace : (s : List ℕ) → BeginsWithDigit s → NoSpace s
digit-NoSpace [] h = tt
digit-NoSpace (c ∷ s) h = ground arith

pub unsigned_decimal-NoSpace : (n : ℕ) (rest : List ℕ) → NoSpace (unsigned_decimal n ++ rest)
unfolding unsigned_decimal
unsigned_decimal-NoSpace n rest =
    digit-NoSpace _ (rw (digits-append 10 n [] rest) (digits-suc-BeginsWithDigit 9 n rest))
