-- ===== src/Loader/Sscanf.antt =====
-- `sscanf` with the one conversion "%0wx", as the C standard describes it: white space, a sign,
-- the prefix 0x, hexadecimal digits, in at most `w` characters from the sign on.
use iss_notify_firmware.Common.{
  ℕ, zero, suc, ◌+◌, ◌-◌, ◌*◌, ◌%◌, ◌^◌, ◌&&◌, ◌||◌, Option, none, some, [], ◌∷◌, Bytes, ◌==◌, leb,
  if◌then◌else◌,
}
use iss_notify_firmware.Stdio.Scan.{is_digit, skip_space}

-- One value is assigned (as a 32-bit word), or none since the text does not fit (0), or none since
-- the text ends before (EOF).
pub data HexScan : Type 0 where
  assigned : ℕ → HexScan
  mismatch at_end : HexScan

unfoldable pub hex_value : ℕ → Option ℕ
hex_value c =
    if is_digit c
    then some (c - b'0')
    else if leb b'a' c && leb c b'f'
    then some (c - b'a' + 10)
    else if leb b'A' c && leb c b'F'
    then some (c - b'A' + 10)
    else none

-- The digits in front, at most `w`, behind the value `v`.
unfoldable pub read_hex : ℕ → ℕ → Bytes → ℕ
read_hex zero v s = v
read_hex (suc w) v [] = v
read_hex (suc w) v (c ∷ s) = elim (hex_value c) [ none ↦ v | some d ↦ read_hex w (v * 16 + d) s ]

unfoldable pub scan_hex_digits : ℕ → Bytes → HexScan
scan_hex_digits zero s = mismatch
scan_hex_digits (suc w) [] = mismatch
scan_hex_digits (suc w) (c ∷ s) = elim (hex_value c) [
  | none ↦ mismatch
  | some d ↦ assigned (read_hex w d s)
]

-- "0x" in front needs a digit behind it.
unfoldable pub scan_prefixed : ℕ → Bytes → HexScan
scan_prefixed w [] = mismatch
scan_prefixed w (c ∷ []) = scan_hex_digits w (c ∷ [])
scan_prefixed w (c ∷ x ∷ s) =
    if c == b'0' && (x == b'x' || x == b'X') && leb 2 w
    then scan_hex_digits (w - 2) s
    else scan_hex_digits w (c ∷ x ∷ s)

abbrev pub negate : HexScan → HexScan
negate (assigned v) = assigned ((2 ^ 32 - v) % 2 ^ 32)
negate mismatch = mismatch
negate at_end = at_end

unfoldable pub scan_signed : ℕ → Bytes → HexScan
scan_signed w [] = at_end
scan_signed w (c ∷ s) =
    if c == b'-'
    then negate (scan_prefixed (w - 1) s)
    else if c == b'+'
    then scan_prefixed (w - 1) s
    else scan_prefixed w (c ∷ s)

unfoldable pub sscanf_hex : ℕ → Bytes → HexScan
sscanf_hex w s = scan_signed w (skip_space s)
