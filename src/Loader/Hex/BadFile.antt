-- ===== src/Loader/Hex/BadFile.antt =====
-- A file with a line that is refused: the lines in front of it count, the ones behind it do not.
use iss_notify_firmware.Common.{
  ℕ, zero, suc, ◌+◌, ◌-◌, ◌*◌, ◌/◌, ◌%◌, ◌^◌, ◌<◌, ◌≤◌, ◌≢◌, Bool, true, false, Option, some, List,
  [], ◌∷◌, ◌++◌, Bytes, ◌≡◌, refl, ap, ap₂, sym, ◌∙◌, arith, ◌==◌, ==_iff, if◌then◌else◌, ◌>>=◌,
  length, All, u32,
}
use iss_notify_firmware.Loader.Hex.{
  HexState, c_string, read_line, read_lines, blank, bad_line, read_intel_hex, parse_hex_line,
}
use iss_notify_firmware.Loader.Hex.Digits.{hex_byte}
use iss_notify_firmware.Loader.Hex.Record.{
  put_bytes, hex_bytes, byte_sum, complement, hex_line, length-hex_line,
}
use iss_notify_firmware.Loader.Hex.File.{parse_hex_line_data, put_lines, count_bytes, Fits}
use iss_notify_firmware.Loader.Hex.Text.{
  IsPlain, fgets_line, c_string_plain, hex_byte-IsPlain, hex_bytes-IsPlain, hex_bytes-append,
  read_lines-hex_line,
}
use iss_notify_firmware.Loader.Hex.Refused.{
  checked_line, length-checked_line, parse_hex_line-checked_line,
}

-- Data lines in front of a text.
abbrev pub hex_lines : List (ℕ × Bytes) → Bytes → Bytes
hex_lines [] s = s
hex_lines ((addr, bs) ∷ lines) s = hex_line 0 addr bs (b'\n' ∷ hex_lines lines s)

-- The state behind data lines.
abbrev pub stored : List (ℕ × Bytes) → HexState → HexState
stored lines st = record st {
  memory = put_lines lines st.memory;
  byte_count = u32 (st.byte_count + count_bytes lines);
}

read_lines-hex_lines :
    (lines : List (ℕ × Bytes)) (n fuel : ℕ) (s : Bytes) (st : HexState)
    → fuel ≡ length lines + n
    → st.end_record_seen ≡ 0
    → st.extended_addr ≡ 0
    → st.byte_count < 2 ^ 32
    → All Fits lines
    → read_lines fuel (hex_lines lines s) st ≡ read_lines n s (stored lines st)
read_lines-hex_lines [] n fuel s st e open_end base small fits =
    let same : st.byte_count ≡ u32 (st.byte_count + 0) = omega arith in
    let rounds : fuel ≡ n = omega arith in
    ap (λ k. read_lines k s st) rounds
    ∙ ap (λ k. read_lines n s (record st { byte_count = k })) same
read_lines-hex_lines ((addr, bs) ∷ lines) n zero s st e open_end base small fits =
    absurd (omega arith)
read_lines-hex_lines ((addr, bs) ∷ lines) n (suc fuel) s st e open_end base small fits =
    let st' = record st {
      memory = put_bytes addr bs st.memory;
      byte_count = u32 (st.byte_count + length bs);
    } in
    let sum : u32 (u32 (st.byte_count + length bs) + count_bytes lines)
        ≡ u32 (st.byte_count + (length bs + count_bytes lines)) =
      omega arith in
    let more_lines : (st.end_record_seen == 0) ≡ true = (==_iff st.end_record_seen 0).1 open_end in
    read_lines-hex_line fuel 0 addr bs (hex_lines lines s) st st' fits.0.0
      (parse_hex_line_data addr bs st base fits.0)
    ∙ rw more_lines (
        read_lines-hex_lines lines n fuel s st' (omega arith) open_end base (omega arith) fits.1
        ∙ ap
            (λ k. read_lines n s (record st {
              memory = put_lines lines (put_bytes addr bs st.memory);
              byte_count = k;
            }))
            sum)

pub read_lines_refused :
    (fuel c : ℕ) (t s : Bytes) (st st' : HexState)
    → All IsPlain (c ∷ t)
    → length t < 1022
    → parse_hex_line (c ∷ (t ++ b'\n' ∷ [])) st ≡ some (false, st')
    → read_lines (suc fuel) (c ∷ (t ++ b'\n' ∷ s)) st ≡ some (false, st')
unfolding read_lines read_line
read_lines_refused fuel c t s st st' plain short parsed =
    let body : Bytes × Bytes → Option (Bool × HexState) = λ (line, rest).
      read_line (c_string line) st >>= λ (ok, st''). elim ok [
        | false ↦ some (false, st'')
        | true ↦ elim (st''.end_record_seen == 0) [
          | true ↦ read_lines fuel rest st''
          | false ↦ some (true, st'')
        ]
      ] in
    ap body (fgets_line 1023 (c ∷ t) s plain (omega arith))
    ∙ rw (c_string_plain (c ∷ t) plain, parsed) refl

-- The characters of a line behind its first one.
abbrev fields : ℕ → Bytes → ℕ → Bytes
fields addr bs c =
    hex_byte (length bs)
      (hex_byte (addr / 256) (hex_byte (addr % 256) (hex_byte 0 (hex_bytes bs (hex_byte c [])))))

fields-IsPlain : (addr : ℕ) (bs : Bytes) (c : ℕ) → All IsPlain (b':' ∷ fields addr bs c)
fields-IsPlain addr bs c = (
  omega arith,
  hex_byte-IsPlain (length bs) _ (
      hex_byte-IsPlain (addr / 256) _ (
        hex_byte-IsPlain (addr % 256) _
          (hex_byte-IsPlain 0 _ (hex_bytes-IsPlain bs _ (hex_byte-IsPlain c [] tt))))),
)

checked_line-append :
    (addr : ℕ) (bs : Bytes) (c : ℕ) (u : Bytes)
    → b':' ∷ (fields addr bs c ++ u) ≡ checked_line addr bs c u
unfolding hex_byte
checked_line-append addr bs c u =
    ap
      (λ t.
        b':' ∷ hex_byte (length bs) (hex_byte (addr / 256) (hex_byte (addr % 256) (hex_byte 0 t))))
      (hex_bytes-append bs _ u)

length-hex_lines :
    (lines : List (ℕ × Bytes)) (s : Bytes) → length lines + length s ≤ length (hex_lines lines s)
length-hex_lines [] s = omega arith
length-hex_lines ((addr, bs) ∷ lines) s =
    omega (arith, length-hex_lines lines s, length-hex_line 0 addr bs (b'\n' ∷ hex_lines lines s))

parse_hex_line-wrong :
    (addr c : ℕ) (bs : Bytes) (st : HexState)
    → Fits (addr, bs)
    → st.extended_addr ≡ 0
    → c < 256
    → c ≢ complement (length bs + addr / 256 + addr % 256 + byte_sum bs)
    → parse_hex_line (b':' ∷ (fields addr bs c ++ b'\n' ∷ [])) st
      ≡ some (false, stored ((addr, bs) ∷ []) st)
parse_hex_line-wrong addr c bs st fit base byte wrong =
    let at : addr + st.extended_addr ≡ addr = omega arith in
    let count : st.byte_count + length bs ≡ st.byte_count + (length bs + 0) = omega arith in
    ap (λ s. parse_hex_line s st) (checked_line-append addr bs c (b'\n' ∷ []))
    ∙ parse_hex_line-checked_line addr c bs (b'\n' ∷ []) st fit.0 (omega arith) (omega arith) fit.2
        byte wrong
    ∙ ap₂ (λ a n. some (false, record st { memory = put_bytes a bs st.memory; byte_count = u32 n }))
        at count

length-fields : (addr : ℕ) (bs : Bytes) (c : ℕ) → length (fields addr bs c) ≡ 10 + length bs * 2
unfolding hex_byte
length-fields addr bs c = omega (arith, length-checked_line addr bs c [])

read_lines-wrong :
    (fuel addr c : ℕ) (bs rest : Bytes) (st : HexState)
    → Fits (addr, bs)
    → st.extended_addr ≡ 0
    → c < 256
    → c ≢ complement (length bs + addr / 256 + addr % 256 + byte_sum bs)
    → read_lines (suc fuel) (checked_line addr bs c (b'\n' ∷ rest)) st
      ≡ some (false, stored ((addr, bs) ∷ []) st)
read_lines-wrong fuel addr c bs rest st fit base byte wrong =
    ap (λ s. read_lines (suc fuel) s st) (sym (checked_line-append addr bs c (b'\n' ∷ rest)))
    ∙ read_lines_refused fuel b':' (fields addr bs c) rest st (stored ((addr, bs) ∷ []) st)
        (fields-IsPlain addr bs c) (omega (arith, fit.0, length-fields addr bs c))
        (parse_hex_line-wrong addr c bs st fit base byte wrong)

-- On a file of data lines of at most 255 bytes that end below the last of the 64 K, then one such
-- line whose checksum, a byte, is not the complement of the sum of its other bytes, and any text
-- behind it: `read_intel_hex` reports a bad line; the bytes of all these lines, those of the
-- refused one too, are counted (modulo 2^32) and stored in order in an otherwise blank image, no
-- end is seen, and the text behind is not read.
pub read_intel_hex-bad_line :
    (lines : List (ℕ × Bytes)) (addr c : ℕ) (bs rest : Bytes)
    → All Fits lines
    → Fits (addr, bs)
    → c < 256
    → c ≢ complement (length bs + addr / 256 + addr % 256 + byte_sum bs)
    → read_intel_hex (some (hex_lines lines (checked_line addr bs c (b'\n' ∷ rest))))
      ≡ some (bad_line, stored ((addr, bs) ∷ []) (stored lines blank))
unfolding read_intel_hex
read_intel_hex-bad_line lines addr c bs rest fits fit byte wrong =
    let s = checked_line addr bs c (b'\n' ∷ rest) in
    let n = length (hex_lines lines s) - length lines in
    ap (λ r. r >>= λ (ok, st). some (if ok then (st.byte_count, st) else (bad_line, st)))
      (read_lines-hex_lines lines (suc n) (length (hex_lines lines s) + 1) s blank
          (omega (arith, length-hex_lines lines s)) refl refl (omega arith) fits
        ∙ read_lines-wrong n addr c bs rest (stored lines blank) fit refl byte wrong)
