-- ===== src/Loader/Hex/Above.antt =====
-- A line that does not end below the last of the 64 K.
use iss_notify_firmware.Common.{
  ℕ, suc, ◌+◌, ◌-◌, ◌*◌, ◌/◌, ◌%◌, ◌^◌, ◌<◌, ◌≤◌, true, false, some, List, [], ◌∷◌, Bytes, ◌≡◌, ap,
  sym, ◌∙◌, arith, leb, if◌then◌else◌, ◌>>=◌, length, u32, drop,
}
use iss_notify_firmware.Loader.Sscanf.{assigned, sscanf_hex}
use iss_notify_firmware.Loader.Hex.{
  HexState, signed_lt, line_fields, parse_hex_line, read_lines, blank, bad_line, read_intel_hex,
}
use iss_notify_firmware.Loader.Hex.Digits.{hex_byte, sscanf_hex-hex_byte, sscanf_hex-hex_word}
use iss_notify_firmware.Loader.Hex.Record.{
  hex_bytes, byte_sum, complement, hex_line, length-hex_line, signed_lt-false,
}
use iss_notify_firmware.Loader.Hex.Parsed.{parse_hex_line_lem}
use iss_notify_firmware.Loader.Hex.Text.{fields, hex_line-IsPlain, hex_line-append}
use iss_notify_firmware.Loader.Hex.BadFile.{read_lines_refused}
use iss_notify_firmware.Loader.Hex.Lines.{Line, lines_text, final_base, AllFit, through}
use iss_notify_firmware.Loader.Hex.Extended.{read_intel_hex-lines_text}

line_fields_above :
    (line : Bytes) (len addr code : ℕ) (st : HexState)
    → signed_lt (length line) (u32 (11 + len * 2)) ≡ false
    → sscanf_hex 4 (drop 3 line) ≡ assigned addr
    → sscanf_hex 2 (drop 7 line) ≡ assigned code
    → leb 0x10000 (u32 (addr + st.extended_addr + len)) ≡ true
    → line_fields line len st ≡ some (false, st)
unfolding line_fields
line_fields_above line len addr code st whole at kind above = rw (whole, at, kind, above)

parse_hex_line-above :
    (code addr : ℕ) (bs rest : Bytes) (st : HexState)
    → code < 256
    → length bs ≤ 255
    → length rest ≤ 256
    → addr < 2 ^ 16
    → 2 ^ 16 ≤ addr + st.extended_addr + length bs
    → addr + st.extended_addr + length bs < 2 ^ 32
    → parse_hex_line (hex_line code addr bs rest) st ≡ some (false, st)
unfolding hex_byte
parse_hex_line-above code addr bs rest st byte few short word above small =
    let tail =
      hex_bytes bs
        (hex_byte (complement (length bs + addr / 256 + addr % 256 + code + byte_sum bs)) rest) in
    let size = length-hex_line code addr bs rest in
    let line = hex_byte (addr / 256) (hex_byte (addr % 256) (hex_byte code tail)) in
    parse_hex_line_lem (hex_byte (length bs) line) (length bs) st (omega arith)
      (sscanf_hex-hex_byte (length bs) line (omega arith))
    ∙ line_fields_above (hex_line code addr bs rest) (length bs) addr code st
        (signed_lt-false _ _ (omega arith) (omega arith))
        (sscanf_hex-hex_word addr (hex_byte code tail) word) (sscanf_hex-hex_byte code tail byte)
        (ground arith)

-- On a file of lines that fit their bases, then one line of any code below 256 with at most 255
-- bytes that ends at or above the 64 K, counted from the base and below 2^32, and any text behind
-- it: `read_intel_hex` reports a bad line, with the lines in front of it counted and stored and
-- nothing of the line itself. So behind an address line for a base of 64 K or more even the end
-- line is refused.
pub read_intel_hex-above :
    (lines : List Line) (code addr : ℕ) (bs rest : Bytes)
    → AllFit 0 lines
    → code < 256
    → length bs ≤ 255
    → addr < 2 ^ 16
    → 2 ^ 16 ≤ addr + final_base 0 lines + length bs
    → addr + final_base 0 lines + length bs < 2 ^ 32
    → read_intel_hex (some (lines_text lines (hex_line code addr bs (b'\n' ∷ rest))))
      ≡ some (bad_line, through lines blank)
read_intel_hex-above lines code addr bs rest fits byte few word above small =
    let s = hex_line code addr bs (b'\n' ∷ rest) in
    let st = through lines blank in
    let n = length (lines_text lines s) - length lines in
    let rounds : n + 1 ≡ suc n = omega arith in
    read_intel_hex-lines_text lines s fits
    ∙ ap (λ r. r >>= λ (ok, st). some (if ok then (st.byte_count, st) else (bad_line, st)))
        (ap (λ k. read_lines k s st) rounds
          ∙ ap (λ x. read_lines (suc n) x st) (sym (hex_line-append code addr bs (b'\n' ∷ rest)))
          ∙ read_lines_refused n b':' (fields code addr bs) rest st st
              (hex_line-IsPlain code addr bs) (omega (arith, length-hex_line code addr bs []))
              (ap (λ x. parse_hex_line x st) (hex_line-append code addr bs (b'\n' ∷ []))
                ∙ parse_hex_line-above code addr bs (b'\n' ∷ []) st byte few (omega arith) word
                    above small))
