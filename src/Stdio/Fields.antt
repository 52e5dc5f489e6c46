-- ===== src/Stdio/Fields.antt =====
-- `fscanf` directive by directive, on a text that `fprintf` made.
use iss_notify_firmware.Common.{ℕ, ◌^◌, ◌<◌, List, ◌∷◌, ◌++◌, ◌≡◌, refl, arith, ==_self, ap, ◌∙◌}
use native.Mathlib.Nat.{mod-eq_of_lt}
use iss_notify_firmware.Stdio.Scan.{
  lit, space, int16, uint16, uint32, char, Format, Assigned, assign, scan_char, match_lit,
  skip_space, fscanf,
}
use iss_notify_firmware.Stdio.Print.{unsigned_decimal, two_digits}
use iss_notify_firmware.Stdio.Digits.{
  Stops, NoSpace, skip_space-NoSpace, scan_integer-unsigned_decimal, scan_integer-two_digits,
}

-- A value in front of what the rest of the format assigns.
abbrev pub and_then : ℕ → Assigned → Assigned
and_then v a = (v ∷ a.0, a.1)

skip_newline : (s : List ℕ) → skip_space (b'\n' ∷ s) ≡ skip_space s
unfolding skip_space
skip_newline s = refl

pub fscanf-lit : (b : ℕ) (f : Format) (s : List ℕ) → fscanf (lit b ∷ f) (b ∷ s) ≡ fscanf f s
unfolding fscanf match_lit
fscanf-lit b f s = rw (==_self b)

pub fscanf-int16-two_digits :
    (n : ℕ) (f : Format) (rest : List ℕ)
    → n < 2 ^ 16
    → Stops rest
    → fscanf (int16 ∷ f) (two_digits n ++ rest) ≡ and_then n (fscanf f rest)
unfolding fscanf assign
fscanf-int16-two_digits n f rest h stops =
    rw (scan_integer-two_digits (2 ^ 16) n rest (omega arith) stops, mod-eq_of_lt {m = 2 ^ 16} h)

pub fscanf-int16 :
    (n : ℕ) (f : Format) (rest : List ℕ)
    → n < 2 ^ 16
    → Stops rest
    → fscanf (int16 ∷ f) (unsigned_decimal n ++ rest) ≡ and_then n (fscanf f rest)
unfolding fscanf assign
fscanf-int16 n f rest h stops =
    rw (
      scan_integer-unsigned_decimal (2 ^ 16) n rest (omega arith) stops,
      mod-eq_of_lt {m = 2 ^ 16} h,
    )

pub fscanf-uint16 :
    (n : ℕ) (f : Format) (rest : List ℕ)
    → n < 2 ^ 16
    → Stops rest
    → fscanf (uint16 ∷ f) (unsigned_decimal n ++ rest) ≡ and_then n (fscanf f rest)
unfolding fscanf assign
fscanf-uint16 n f rest h stops =
    rw (
      scan_integer-unsigned_decimal (2 ^ 16) n rest (omega arith) stops,
      mod-eq_of_lt {m = 2 ^ 16} h,
    )

pub fscanf-uint32 :
    (n : ℕ) (f : Format) (rest : List ℕ)
    → n < 2 ^ 32
    → Stops rest
    → fscanf (uint32 ∷ f) (unsigned_decimal n ++ rest) ≡ and_then n (fscanf f rest)
unfolding fscanf assign
fscanf-uint32 n f rest h stops =
    rw (
      scan_integer-unsigned_decimal (2 ^ 32) n rest (omega arith) stops,
      mod-eq_of_lt {m = 2 ^ 32} h,
    )

-- White space in the format passes over a newline.
pub fscanf-space :
    (f : Format) (s : List ℕ) → NoSpace s → fscanf (space ∷ f) (b'\n' ∷ s) ≡ fscanf f s
unfolding fscanf
fscanf-space f s h = ap (fscanf f) (skip_newline s ∙ skip_space-NoSpace s h)

pub fscanf-char :
    (c : ℕ) (f : Format) (rest : List ℕ) → fscanf (char ∷ f) (c ∷ rest) ≡ and_then c (fscanf f rest)
unfolding fscanf scan_char assign
fscanf-char c f rest = refl
