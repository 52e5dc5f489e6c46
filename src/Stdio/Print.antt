-- ===== src/Stdio/Print.antt =====
-- The conversions of `fprintf`.
use iss_notify_firmware.Common.{
  ℕ, zero, suc, ◌+◌, ◌-◌, ◌/◌, ◌%◌, ◌^◌, true, false, List, [], ◌∷◌, ltb, if◌then◌else◌,
}

-- The decimal digits of `n`, in front of `rest`; the fuel bounds their number.
unfoldable pub digits : ℕ → ℕ → List ℕ → List ℕ
digits zero n rest = rest
digits (suc f) n rest = elim (ltb n 10) [
  | true ↦ (b'0' + n) ∷ rest
  | false ↦ digits f (n / 10) ((b'0' + n % 10) ∷ rest)
]

-- %lu and %u: ten digits hold every 32-bit number.
unfoldable pub unsigned_decimal : ℕ → List ℕ
unsigned_decimal n = digits 10 n []

-- %d of the bit pattern of a 16-bit `int`.
unfoldable pub signed_decimal : ℕ → List ℕ
signed_decimal w =
    if ltb w (2 ^ 15) then unsigned_decimal w else b'-' ∷ unsigned_decimal (2 ^ 16 - w)

-- %02d of a nonnegative number.
unfoldable pub two_digits : ℕ → List ℕ
two_digits n = if ltb n 10 then b'0' ∷ unsigned_decimal n else unsigned_decimal n
