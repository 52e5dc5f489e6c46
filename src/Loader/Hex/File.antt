-- ===== src/Loader/Hex/File.antt =====
-- A file of data lines and an end line: `read_intel_hex` brings the bytes of the lines.
use iss_notify_firmware.Common.{
  ℕ, zero, suc, ◌+◌, ◌^◌, ◌<◌, ◌≤◌, true, some, List, [], ◌∷◌, Bytes, ◌≡◌, refl, ap, ◌∙◌, arith,
  ◌==◌, if◌then◌else◌, ◌>>=◌, length, All, u32, ==_iff,
}
use iss_notify_firmware.Loader.{Image}
use iss_notify_firmware.Loader.Hex.{
  HexState, read_lines, blank, bad_line, read_intel_hex, line_body, parse_hex_line,
}
use iss_notify_firmware.Loader.Hex.Record.{put_bytes, hex_line, length-hex_line, IsByte}
use iss_notify_firmware.Loader.Hex.Parsed.{parse_hex_line-body, parse_hex_line-hex_line}
use iss_notify_firmware.Loader.Hex.Text.{read_lines-hex_line}

-- The end line.
parse_hex_line-end :
    (st : HexState)
    → st.extended_addr ≡ 0
    → parse_hex_line (hex_line 1 0 [] (b'\n' ∷ [])) st
      ≡ some (true, record st { end_record_seen = 1 })
unfolding line_body
parse_hex_line-end st e =
    parse_hex_line-body 1 0 [] (b'\n' ∷ []) st (omega arith) (omega arith) (omega arith)
      (omega arith) (omega arith)

-- The lines of addresses and bytes, and the line that ends the file.
abbrev pub hex_file : List (ℕ × Bytes) → Bytes
hex_file [] = hex_line 1 0 [] (b'\n' ∷ [])
hex_file ((addr, bs) ∷ lines) = hex_line 0 addr bs (b'\n' ∷ hex_file lines)

abbrev pub put_lines : List (ℕ × Bytes) → Image → Image
put_lines [] im = im
put_lines ((addr, bs) ∷ lines) im = put_lines lines (put_bytes addr bs im)

abbrev pub count_bytes : List (ℕ × Bytes) → ℕ
count_bytes [] = 0
count_bytes ((addr, bs) ∷ lines) = length bs + count_bytes lines

-- At most 255 bytes, which end below the last address.
abbrev pub Fits : ℕ × Bytes → Type 0
Fits (addr, bs) = (length bs ≤ 255) × (addr + length bs < 2 ^ 16) × All IsByte bs

pub parse_hex_line_data :
    (addr : ℕ) (bs : Bytes) (st : HexState)
    → st.extended_addr ≡ 0
    → Fits (addr, bs)
    → parse_hex_line (hex_line 0 addr bs (b'\n' ∷ [])) st
      ≡ some (
        true,
        record st {
          memory = put_bytes addr bs st.memory;
          byte_count = u32 (st.byte_count + length bs);
        },
      )
parse_hex_line_data addr bs st base (few, inside, ok) =
    let start : addr + st.extended_addr ≡ addr = omega arith in
    parse_hex_line-hex_line addr bs (b'\n' ∷ []) st few (omega arith) (omega arith) ok
    ∙ ap
        (λ a. some (
          true,
          record st {
            memory = put_bytes a bs st.memory;
            byte_count = u32 (st.byte_count + length bs);
          },
        ))
        start

read_lines-hex_file :
    (fuel : ℕ) (lines : List (ℕ × Bytes)) (st : HexState)
    → length lines < fuel
    → st.end_record_seen ≡ 0
    → st.extended_addr ≡ 0
    → st.byte_count < 2 ^ 32
    → All Fits lines
    → read_lines fuel (hex_file lines) st
      ≡ some (
        true,
        record st {
          memory = put_lines lines st.memory;
          end_record_seen = 1;
          byte_count = u32 (st.byte_count + count_bytes lines);
        },
      )
read_lines-hex_file zero lines st more open_end base small fits = absurd (omega arith)
read_lines-hex_file (suc fuel) [] st more open_end base small fits =
    let same : st.byte_count ≡ u32 (st.byte_count + 0) = omega arith in
    read_lines-hex_line fuel 1 0 [] [] st (record st { end_record_seen = 1 }) (omega arith)
      (parse_hex_line-end st base)
    ∙ ap (λ n. some (true, record st { end_record_seen = 1; byte_count = n })) same
read_lines-hex_file (suc fuel) ((addr, bs) ∷ lines) st more open_end base small fits =
    let st' = record st {
      memory = put_bytes addr bs st.memory;
      byte_count = u32 (st.byte_count + length bs);
    } in
    let sum : u32 (u32 (st.byte_count + length bs) + count_bytes lines)
        ≡ u32 (st.byte_count + (length bs + count_bytes lines)) =
      omega arith in
    let more_lines : (st.end_record_seen == 0) ≡ true = (==_iff st.end_record_seen 0).1 open_end in
    read_lines-hex_line fuel 0 addr bs (hex_file lines) st st' fits.0.0
      (parse_hex_line_data addr bs st base fits.0)
    ∙ rw more_lines (
        read_lines-hex_file fuel lines st' (omega arith) open_end base (omega arith) fits.1
        ∙ ap
            (λ n. some (
              true,
              record st {
                memory = put_lines lines (put_bytes addr bs st.memory);
                end_record_seen = 1;
                byte_count = n;
              },
            ))
            sum)

length-hex_file : (lines : List (ℕ × Bytes)) → length lines < length (hex_file lines)
length-hex_file [] = omega (arith, length-hex_line 1 0 [] (b'\n' ∷ []))
length-hex_file ((addr, bs) ∷ lines) =
    omega (arith, length-hex_file lines, length-hex_line 0 addr bs (b'\n' ∷ hex_file lines))

pub read_intel_hex-hex_file :
    (lines : List (ℕ × Bytes))
    → All Fits lines
    → count_bytes lines < 2 ^ 32
    → read_intel_hex (some (hex_file lines))
      ≡ some (
        count_bytes lines,
        record {
          memory = put_lines lines blank.memory;
          end_record_seen = 1;
          byte_count = count_bytes lines;
          extended_addr = 0;
        },
      )
unfolding read_intel_hex
read_intel_hex-hex_file lines fits small =
    let n = length (hex_file lines) in
    let all : u32 (0 + count_bytes lines) ≡ count_bytes lines = omega arith in
    ap (λ r. r >>= λ (ok, st). some (if ok then (st.byte_count, st) else (bad_line, st)))
      (read_lines-hex_file (n + 1) lines blank (omega (arith, length-hex_file lines)) refl refl
        (omega arith) fits)
    ∙ ap
        (λ k. some (
          k,
          record {
            memory = put_lines lines blank.memory;
            end_record_seen = 1;
            byte_count = k;
            extended_addr = 0;
          },
        ))
        all
