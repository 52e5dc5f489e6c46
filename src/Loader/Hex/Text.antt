-- ===== src/Loader/Hex/Text.antt =====
-- A printed line among the lines of a file.
use iss_notify_firmware.Common.{
  ℕ, zero, suc, ◌+◌, ◌/◌, ◌%◌, ◌<◌, ◌≤◌, Bool, true, false, Option, some, [], ◌∷◌, ◌++◌, Bytes, ◌≡◌,
  refl, ap, sym, ◌∙◌, arith, ◌==◌, ◌>>=◌, length, All,
}
use iss_notify_firmware.Loader.Hex.{
  HexState, c_string, fgets, read_line, read_lines, parse_hex_line,
}
use iss_notify_firmware.Loader.Hex.Digits.{hex_char, hex_byte}
use iss_notify_firmware.Loader.Hex.Record.{
  hex_bytes, byte_sum, complement, hex_line, length-hex_line,
}

-- A byte that neither ends a string nor a line.
abbrev pub IsPlain : ℕ → Type 0
IsPlain c = 10 < c

pub fgets_line :
    (n : ℕ) (t s : Bytes)
    → All IsPlain t
    → length t < n
    → fgets n (t ++ b'\n' ∷ s) ≡ (t ++ b'\n' ∷ [], s)
unfolding fgets
fgets_line zero t s plain h = absurd (omega arith)
fgets_line (suc n) [] s plain h = refl
fgets_line (suc n) (c ∷ t) s plain h =
    let inner : (c == b'\n') ≡ false = ground arith in
    rw (inner, fgets_line n t s plain.1 (omega arith)) refl

pub c_string_plain : (t : Bytes) → All IsPlain t → c_string (t ++ b'\n' ∷ []) ≡ t ++ b'\n' ∷ []
unfolding c_string
c_string_plain [] plain = refl
c_string_plain (c ∷ t) plain =
    let inner : (c == 0) ≡ false = ground arith in rw (inner, c_string_plain t plain.1) refl

hex_char-IsPlain : (d : ℕ) → IsPlain (hex_char d)
unfolding hex_char
hex_char-IsPlain d = ground arith

hex_byte-append : (b : ℕ) (s u : Bytes) → hex_byte b s ++ u ≡ hex_byte b (s ++ u)
unfolding hex_byte
hex_byte-append b s u = refl

pub hex_bytes-append : (bs s u : Bytes) → hex_bytes bs s ++ u ≡ hex_bytes bs (s ++ u)
unfolding hex_byte
hex_bytes-append [] s u = refl
hex_bytes-append (b ∷ bs) s u = ap (hex_byte b) (hex_bytes-append bs s u)

pub hex_line-append :
    (code addr : ℕ) (bs u : Bytes) → hex_line code addr bs [] ++ u ≡ hex_line code addr bs u
unfolding hex_byte
hex_line-append code addr bs u =
    ap
      (λ t.
        b':'
        ∷ hex_byte (length bs) (hex_byte (addr / 256) (hex_byte (addr % 256) (hex_byte code t))))
      (hex_bytes-append bs _ u)

pub hex_byte-IsPlain : (b : ℕ) (s : Bytes) → All IsPlain s → All IsPlain (hex_byte b s)
unfolding hex_byte
hex_byte-IsPlain b s plain = (hex_char-IsPlain (b / 16), (hex_char-IsPlain (b % 16), plain))

pub hex_bytes-IsPlain : (bs s : Bytes) → All IsPlain s → All IsPlain (hex_bytes bs s)
unfolding hex_byte
hex_bytes-IsPlain [] s plain = plain
hex_bytes-IsPlain (b ∷ bs) s plain =
    hex_byte-IsPlain b (hex_bytes bs s) (hex_bytes-IsPlain bs s plain)

pub hex_line-IsPlain : (code addr : ℕ) (bs : Bytes) → All IsPlain (hex_line code addr bs [])
hex_line-IsPlain code addr bs = (
  omega arith,
  hex_byte-IsPlain (length bs) _ (
      hex_byte-IsPlain (addr / 256) _ (
        hex_byte-IsPlain (addr % 256) _ (
          hex_byte-IsPlain code _
            (hex_bytes-IsPlain bs _ (hex_byte-IsPlain (complement _) [] tt))))),
)

-- A line is read and parsed.
read_lines_line :
    (fuel c : ℕ) (t s : Bytes) (st st' : HexState)
    → All IsPlain (c ∷ t)
    → length t < 1022
    → parse_hex_line (c ∷ (t ++ b'\n' ∷ [])) st ≡ some (true, st')
    → read_lines (suc fuel) (c ∷ (t ++ b'\n' ∷ s)) st ≡ (elim (st'.end_record_seen == 0) [
      | true ↦ read_lines fuel s st'
      | false ↦ some (true, st')
    ])
unfolding read_lines read_line
read_lines_line fuel c t s st st' plain short parsed =
    let body : Bytes × Bytes → Option (Bool × HexState) = λ (line, rest).
      read_line (c_string line) st >>= λ (ok, st''). elim ok [
        | false ↦ some (false, st'')
        | true ↦ elim (st''.end_record_seen == 0) [
          | true ↦ read_lines fuel rest st''
          | false ↦ some (true, st'')
        ]
      ] in
    ap body (fgets_line 1023 (c ∷ t) s plain (omega arith))
    ∙ rw (c_string_plain (c ∷ t) plain, parsed) refl

-- The bytes of a line behind its first character.
abbrev pub fields : ℕ → ℕ → Bytes → Bytes
fields code addr bs =
    let sum = length bs + addr / 256 + addr % 256 + code + byte_sum bs in
    hex_byte (length bs) (
      hex_byte (addr / 256)
        (hex_byte (addr % 256) (hex_byte code (hex_bytes bs (hex_byte (complement sum) [])))))

pub read_lines-hex_line :
    (fuel code addr : ℕ) (bs s : Bytes) (st st' : HexState)
    → length bs ≤ 255
    → parse_hex_line (hex_line code addr bs (b'\n' ∷ [])) st ≡ some (true, st')
    → read_lines (suc fuel) (hex_line code addr bs (b'\n' ∷ s)) st
      ≡ (elim (st'.end_record_seen == 0) [
        | true ↦ read_lines fuel s st'
        | false ↦ some (true, st')
      ])
read_lines-hex_line fuel code addr bs s st st' few parsed =
    ap (λ x. read_lines (suc fuel) x st) (sym (hex_line-append code addr bs (b'\n' ∷ s)))
    ∙ read_lines_line fuel b':' (fields code addr bs) s st st' (hex_line-IsPlain code addr bs)
        (omega (arith, length-hex_line code addr bs []))
        (ap (λ x. parse_hex_line x st) (hex_line-append code addr bs (b'\n' ∷ [])) ∙ parsed)
