-- ===== src/Loader/Hex/Extended.antt =====
-- A file with address lines is read line by line.
use iss_notify_firmware.Common.{
  ℕ, zero, suc, ◌+◌, ◌-◌, ◌^◌, ◌<◌, ◌≤◌, some, List, [], ◌∷◌, Bytes, ◌≡◌, refl, ap, sym, ◌∙◌, arith,
  if◌then◌else◌, ◌>>=◌, length, u32,
}
use iss_notify_firmware.Loader.Hex.{HexState, read_lines, blank, bad_line, read_intel_hex}
use iss_notify_firmware.Loader.Hex.Record.{hex_line, length-hex_line}
use iss_notify_firmware.Loader.Hex.Text.{read_lines-hex_line}
use iss_notify_firmware.Loader.Hex.Lines.{
  Line, bytes_at, segment, linear, other, word_bytes, line_text, file_text, final_base, put_all,
  size, total, through, lines_text, AllFit, after,
}
use iss_notify_firmware.Loader.Hex.LineByLine.{counted, parse_hex_line-last, read_lines-line}

-- Lines that fit are read one after the other.
read_lines-lines_text :
    (lines : List Line) (n fuel : ℕ) (s : Bytes) (st : HexState)
    → fuel ≡ length lines + n
    → st.end_record_seen ≡ 0
    → st.byte_count < 2 ^ 32
    → AllFit st.extended_addr lines
    → read_lines fuel (lines_text lines s) st ≡ read_lines n s (through lines st)
read_lines-lines_text [] n fuel s st rounds open_end small fits =
    let same : fuel ≡ n = omega arith in
    ap (λ k. read_lines k s st) same
    ∙ ap (λ k. read_lines n s (record st { byte_count = k })) (sym (counted st small))
read_lines-lines_text (l ∷ lines) n zero s st rounds open_end small fits = absurd (omega arith)
read_lines-lines_text (l ∷ lines) n (suc fuel) s st rounds open_end small fits =
    let sum : u32 (u32 (st.byte_count + size l) + total lines)
        ≡ u32 (st.byte_count + (size l + total lines)) =
      omega arith in
    read_lines-line fuel l (lines_text lines s) st small open_end fits.0
    ∙ read_lines-lines_text lines n fuel s (after l st) (omega arith) open_end (omega arith) fits.1
    ∙ ap (λ k. read_lines n s (record (through (l ∷ lines) st) { byte_count = k })) sum

length-line_text : (l : Line) (s : Bytes) → length s < length (line_text l s)
length-line_text (bytes_at addr bs) s = omega (arith, length-hex_line 0 addr bs s)
length-line_text (segment w) s = omega (arith, length-hex_line 2 0 (word_bytes w) s)
length-line_text (linear w) s = omega (arith, length-hex_line 4 0 (word_bytes w) s)
length-line_text (other code bs) s = omega (arith, length-hex_line code 0 bs s)

length-lines_text :
    (lines : List Line) (s : Bytes) → length lines + length s ≤ length (lines_text lines s)
length-lines_text [] s = omega arith
length-lines_text (l ∷ lines) s =
    omega (arith, length-lines_text lines s, length-line_text l (b'\n' ∷ lines_text lines s))

-- The loop of `read_intel_hex`, behind lines that fit.
pub read_intel_hex-lines_text :
    (lines : List Line) (s : Bytes)
    → AllFit 0 lines
    → read_intel_hex (some (lines_text lines s)) ≡ (
        read_lines (length (lines_text lines s) - length lines + 1) s (through lines blank)
        >>= λ (ok, st). some (if ok then (st.byte_count, st) else (bad_line, st)))
unfolding read_intel_hex
read_intel_hex-lines_text lines s fits =
    ap (λ r. r >>= λ (ok, st). some (if ok then (st.byte_count, st) else (bad_line, st)))
      (read_lines-lines_text lines (length (lines_text lines s) - length lines + 1)
        (length (lines_text lines s) + 1) s blank (omega (arith, length-lines_text lines s)) refl
        (omega arith) fits)

-- For a file of data lines, segment and linear address lines, lines with a code from 5 to 255, and
-- an end line, in which every line ends below the last of the 64 K, counted from the base that the
-- last address line in front of it has set, has at most 255 bytes and fields that fit their
-- digits, and with fewer than 2^31 bytes of data in all: `read_intel_hex` returns the number of
-- the data bytes, with the end seen, the last base, and the bytes of the data lines stored in
-- order from their bases on in an otherwise blank image.
pub read_intel_hex-file_text :
    (lines : List Line)
    → AllFit 0 lines
    → final_base 0 lines < 2 ^ 16
    → total lines < 2 ^ 31
    → read_intel_hex (some (file_text lines))
      ≡ some (
        total lines,
        record {
          memory = put_all 0 lines blank.memory;
          end_record_seen = 1;
          byte_count = total lines;
          extended_addr = final_base 0 lines;
        },
      )
read_intel_hex-file_text lines fits inside small =
    let end_line = hex_line 1 0 [] (b'\n' ∷ []) in
    let all : u32 (0 + total lines) ≡ total lines = omega arith in
    let rounds : length (lines_text lines end_line) - length lines + 1
        ≡ suc (length (lines_text lines end_line) - length lines) =
      omega arith in
    read_intel_hex-lines_text lines end_line fits
    ∙ ap (λ r. r >>= λ (ok, st). some (if ok then (st.byte_count, st) else (bad_line, st)))
        (ap (λ k. read_lines k end_line (through lines blank)) rounds
          ∙ read_lines-hex_line _ 1 0 [] [] (through lines blank)
              (record (through lines blank) { end_record_seen = 1 }) (omega arith)
              (parse_hex_line-last (through lines blank) inside))
    ∙ ap (λ k. some (k, record (through lines blank) { end_record_seen = 1; byte_count = k })) all
