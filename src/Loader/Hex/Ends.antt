-- ===== src/Loader/Hex/Ends.antt =====
-- The loop of `read_intel_hex` ends.
use iss_notify_firmware.Common.{
  ℕ, zero, suc, ◌<◌, ◌≤◌, Bool, true, false, Option, none, some, [], ◌∷◌, Bytes, ◌≡◌, refl, ap, sym,
  ◌∙◌, arith, ap₂, ◌≢◌, ◌↔◌, Bool-cases, ◌==◌, ◌>>=◌, length, Option-cases, inl, inr,
}
use iss_notify_firmware.Loader.Hex.{
  HexState, c_string, fgets, read_line, read_lines, parse_hex_line,
}

fgets_rest : (n : ℕ) (s : Bytes) → length (fgets n s).1 ≤ length s
unfolding fgets
fgets_rest zero s = omega arith
fgets_rest (suc n) [] = omega arith
fgets_rest (suc n) (c ∷ s) = ground (arith, fgets_rest n s)

fgets_less : (n c : ℕ) (s : Bytes) → length (fgets (suc n) (c ∷ s)).1 < suc (length s)
unfolding fgets
fgets_less n c s = ground (arith, fgets_rest n s)

read_line-none :
    (line : Bytes) (st : HexState) → read_line line st ≡ none → parse_hex_line line st ≡ none
unfolding read_line
read_line-none [] st h = absurd (cc)
read_line-none (c ∷ s) st h = h

none-read_line :
    (line : Bytes) (st : HexState) → parse_hex_line line st ≡ none → read_line line st ≡ none
unfolding read_line parse_hex_line
none-read_line [] st h = absurd (cc)
none-read_line (c ∷ s) st h = h

-- The line that a round of the loop reads, and what is behind it in the file.
abbrev pub line_of : Bytes → Bytes
line_of file = c_string (fgets 1023 file).0

abbrev pub behind : Bytes → Bytes
behind file = (fgets 1023 file).1

-- The loop over the lines of a file comes to a line, in a state: it is the first, or the first is
-- accepted and ends nothing, and the loop over the others comes to it.
pub data Comes (line : Bytes) (st' : HexState) : Bytes → HexState → Type 0 where
  first :
      {file : Bytes} {st : HexState}
      → file ≢ []
      → line ≡ line_of file
      → st' ≡ st
      → Comes line st' file st
  later :
      {file : Bytes} {st : HexState} (next : HexState)
      → file ≢ []
      → read_line (line_of file) st ≡ some (true, next)
      → next.end_record_seen ≡ 0
      → Comes line st' (behind file) next
      → Comes line st' file st

-- It comes to a line whose treatment is undefined.
abbrev pub ComesUndefined : Bytes → HexState → Type 0
ComesUndefined file st =
    (line : Bytes) × (st' : HexState) × Comes line st' file st × (parse_hex_line line st' ≡ none)

-- Behind a line.
abbrev after : ℕ → Bytes → Bool × HexState → Option (Bool × HexState)
after fuel rest r = elim r.0 [
  | false ↦ some (false, r.1)
  | true ↦ elim (r.1.end_record_seen == 0) [
    | true ↦ read_lines fuel rest r.1
    | false ↦ some (true, r.1)
  ]
]

read_lines-after :
    (fuel c : ℕ) (s : Bytes) (st : HexState)
    → read_lines (suc fuel) (c ∷ s) st
      ≡ (read_line (line_of (c ∷ s)) st >>= after fuel (behind (c ∷ s)))
unfolding read_lines
read_lines-after fuel c s st = refl

-- The rest of the file matters only behind a line that is accepted and ends nothing.
after-none :
    (fuel : ℕ) (rest : Bytes) (ok : Bool) (st : HexState)
    → after fuel rest (ok, st) ≡ none
    → (ok ≡ true) × (st.end_record_seen ≡ 0) × (read_lines fuel rest st ≡ none)
after-none fuel rest false st h = absurd (cc)
after-none fuel rest true st h = elim (Bool-cases (st.end_record_seen == 0)) [
  | inl unended ↦ (refl, ground arith, ground arith)
  | inr ended ↦ absurd (ground arith)
]

after_unended :
    (fuel : ℕ) (rest : Bytes) (st : HexState)
    → st.end_record_seen ≡ 0
    → after fuel rest (true, st) ≡ read_lines fuel rest st
after_unended fuel rest st h = ground arith

full : (c : ℕ) (s : Bytes) → (c ∷ s) ≢ []
full c s e = cc

-- A loop without a result has come to a line without one.
comes_undefined :
    (fuel : ℕ) (file : Bytes) (st : HexState)
    → length file < fuel
    → read_lines fuel file st ≡ none
    → ComesUndefined file st
comes_undefined zero file st more h = absurd (omega arith)
comes_undefined (suc fuel) [] st more h = absurd (unfold read_lines in cc)
comes_undefined (suc fuel) (c ∷ s) st more h =
    let h' = sym (read_lines-after fuel c s st) ∙ h in
    elim (Option-cases (read_line (line_of (c ∷ s)) st)) [
      | inl e ↦ (line_of (c ∷ s), st, first (full c s) refl refl, read_line-none _ st e)
      | inr ((ok, next), e) ↦
          (let (accepted, unended, rest) =
              after-none fuel (behind (c ∷ s)) ok next
                (ap (λ m. m >>= after fuel (behind (c ∷ s))) (sym e) ∙ h') in
            let (line, st', comes, undefined) =
              comes_undefined fuel (behind (c ∷ s)) next (omega (arith, fgets_less 1022 c s))
                rest in
            (
              line,
              st',
              later next (full c s) (e ∙ ap (λ b. some (b, next)) accepted) unended comes,
              undefined,
            ))
    ]

-- A loop that comes to such a line has no result.
undefined_none :
    (fuel : ℕ) (file : Bytes) (st : HexState) {line : Bytes} {st' : HexState}
    → Comes line st' file st
    → read_line line st' ≡ none
    → read_lines fuel file st ≡ none
undefined_none zero file st comes h = unfold read_lines in refl
undefined_none (suc fuel) [] st (first some_bytes e e') h = absurd (some_bytes refl)
undefined_none (suc fuel) [] st (later next some_bytes e unended comes) h = absurd (some_bytes refl)
undefined_none (suc fuel) (c ∷ s) st (first some_bytes e e') h =
    read_lines-after fuel c s st
    ∙ ap (λ m. m >>= after fuel (behind (c ∷ s))) (sym (ap₂ read_line e e') ∙ h)
undefined_none (suc fuel) (c ∷ s) st (later next some_bytes e unended comes) h =
    read_lines-after fuel c s st
    ∙ ap (λ m. m >>= after fuel (behind (c ∷ s))) e
    ∙ after_unended fuel (behind (c ∷ s)) next unended
    ∙ (undefined_none fuel (behind (c ∷ s)) next comes h)

-- With fuel above the number of bytes in the file, the loop over its lines ends: it is without a
-- result exactly if it comes to a line of the file whose treatment, in the state that the lines
-- before it have left, is undefined, each of those lines being accepted and none of them having
-- ended the data.
pub read_lines-none :
    (fuel : ℕ) (file : Bytes) (st : HexState)
    → length file < fuel
    → (read_lines fuel file st ≡ none) ↔ ComesUndefined file st
read_lines-none fuel file st more = (
  comes_undefined fuel file st more,
  λ (line, st', comes, undefined).
      undefined_none fuel file st comes (none-read_line line st' undefined),
)
