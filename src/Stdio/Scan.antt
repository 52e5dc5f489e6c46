-- ===== src/Stdio/Scan.antt =====
-- `fscanf`.
use iss_notify_firmware.Common.{
  ℕ, ◌+◌, ◌-◌, ◌*◌, ◌%◌, ◌^◌, Bool, ◌&&◌, ◌||◌, List, [], ◌∷◌, Option, none, some, ◌==◌, leb,
  if◌then◌else◌,
}

-- One directive of a format string: a byte that must match, white space, or a conversion.
pub data Directive : Type 0 where
  lit : ℕ → Directive
  space int16 uint16 uint32 char : Directive

abbrev pub Format : Type 0
Format = List Directive

abbrev pub is_digit : ℕ → Bool
is_digit c = leb b'0' c && leb c b'9'

-- `isspace` in the C locale.
abbrev pub is_space : ℕ → Bool
is_space c = c == 32 || leb 9 c && leb c 13

unfoldable pub skip_space : List ℕ → List ℕ
skip_space [] = []
skip_space (c ∷ s) = if is_space c then skip_space s else c ∷ s

-- The number that the digits in front spell behind `v`, and the rest.
unfoldable pub scan_digits : ℕ → List ℕ → ℕ × List ℕ
scan_digits v [] = (v, [])
scan_digits v (c ∷ s) = if is_digit c then scan_digits (v * 10 + (c - b'0')) s else (v, c ∷ s)

-- What a conversion brings, if it succeeds, and the bytes that it leaves.
abbrev Scanned : Type 0
Scanned = Option ℕ × List ℕ

unfoldable scan_unsigned : ℕ → List ℕ → Scanned
unfolding scan_digits
scan_unsigned m [] = (none, [])
scan_unsigned m (c ∷ s) =
    let (v, r) = scan_digits 0 (c ∷ s) in if is_digit c then (some (v % m), r) else (none, c ∷ s)

-- The value `- v` in words of modulus `m`.
abbrev pub negate : ℕ → Scanned → Scanned
negate m (none, r) = (none, r)
negate m (some v, r) = (some ((m - v) % m), r)

unfoldable pub scan_signed : ℕ → List ℕ → Scanned
unfolding scan_unsigned
scan_signed m [] = (none, [])
scan_signed m (c ∷ s) =
    if c == b'-'
    then negate m (scan_unsigned m s)
    else if c == b'+'
    then scan_unsigned m s
    else scan_unsigned m (c ∷ s)

-- An integer conversion of a word of modulus `m`: white space, a sign, digits.
unfoldable pub scan_integer : ℕ → List ℕ → Scanned
unfolding skip_space scan_signed
scan_integer m s = scan_signed m (skip_space s)

unfoldable pub scan_char : List ℕ → Scanned
scan_char [] = (none, [])
scan_char (c ∷ s) = (some c, s)

-- What a scan has assigned, in order, and the bytes that are left.
abbrev pub Assigned : Type 0
Assigned = List ℕ × List ℕ

-- A conversion that fails ends the scan.
unfoldable pub assign : Scanned → (List ℕ → Assigned) → Assigned
assign (none, r) k = ([], r)
assign (some v, r) k = let (vs, r') = k r in (v ∷ vs, r')

-- A byte that does not match ends the scan and stays unread.
unfoldable pub match_lit : ℕ → List ℕ → (List ℕ → Assigned) → Assigned
match_lit b [] k = ([], [])
match_lit b (c ∷ s) k = if b == c then k s else ([], c ∷ s)

-- `fscanf` returns the number of the assigned values (or EOF for none).
unfoldable pub fscanf : Format → List ℕ → Assigned
fscanf [] s = ([], s)
fscanf (lit b ∷ f) s = match_lit b s (fscanf f)
fscanf (space ∷ f) s = fscanf f (skip_space s)
fscanf (int16 ∷ f) s = assign (scan_integer (2 ^ 16) s) (fscanf f)
fscanf (uint16 ∷ f) s = assign (scan_integer (2 ^ 16) s) (fscanf f)
fscanf (uint32 ∷ f) s = assign (scan_integer (2 ^ 32) s) (fscanf f)
fscanf (char ∷ f) s = assign (scan_char s) (fscanf f)
