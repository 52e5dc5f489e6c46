-- ===== src/Loader/Hex/Refused.antt =====
-- A data line with a wrong checksum.
use iss_notify_firmware.Common.{
  ℕ, ◌+◌, ◌*◌, ◌/◌, ◌%◌, ◌^◌, ◌<◌, ◌≤◌, ◌≢◌, false, some, ◌∷◌, Bytes, ◌≡◌, ap, ◌∙◌, arith, ◌==◌,
  length, All, u32, ne→==-false,
}
use iss_notify_firmware.Loader.Hex.{
  HexState, low_byte, high_byte, check_sum, data_line, line_body, parse_hex_line,
}
use iss_notify_firmware.Loader.Hex.Digits.{hex_byte, sscanf_hex-hex_byte, sscanf_hex-hex_word}
use iss_notify_firmware.Loader.Hex.Record.{
  put_bytes, hex_bytes, length-hex_bytes, byte_sum, complement, IsByte, load_bytes-hex_bytes,
  signed_lt-false, line_body_data,
}
use iss_notify_firmware.Loader.Hex.Parsed.{line_fields_lem, parse_hex_line_lem}

-- A data line with any checksum.
abbrev pub checked_line : ℕ → Bytes → ℕ → Bytes → Bytes
checked_line addr bs sum rest =
    b':'
    ∷ hex_byte (length bs) (
        hex_byte (addr / 256)
          (hex_byte (addr % 256) (hex_byte 0 (hex_bytes bs (hex_byte sum rest)))))

check_sum-wrong :
    (sum c : ℕ) (rest : Bytes) (st : HexState)
    → c < 256
    → c ≢ complement sum
    → check_sum (hex_byte c rest) sum st ≡ some (false, st)
unfolding check_sum
check_sum-wrong sum c rest st byte wrong =
    let nonzero : (low_byte (low_byte sum + low_byte c) == 0) ≡ false =
      ne→==-false _ _ (λ e. wrong (omega arith)) in
    rw (sscanf_hex-hex_byte c rest byte, nonzero)

data_line-wrong :
    (addr sum c : ℕ) (bs rest : Bytes) (st : HexState)
    → length bs ≤ 255
    → addr + st.extended_addr + length bs < 2 ^ 16
    → All IsByte bs
    → c < 256
    → c ≢ complement (sum + byte_sum bs)
    → data_line (length bs) addr (hex_bytes bs (hex_byte c rest)) sum st
      ≡ some (
        false,
        record st {
          byte_count = u32 (st.byte_count + length bs);
          memory = put_bytes (addr + st.extended_addr) bs st.memory;
        },
      )
unfolding data_line
data_line-wrong addr sum c bs rest st few fits ok byte wrong =
    let counted = record st { byte_count = u32 (st.byte_count + length bs) } in
    let first : addr + st.extended_addr + 0 ≡ addr + st.extended_addr = omega arith in
    rw (
      load_bytes-hex_bytes 256 0 (length bs) addr sum bs (hex_byte c rest) counted (omega arith) few
          (omega arith) fits ok,
      check_sum-wrong (sum + byte_sum bs) c rest
          (record counted { memory = put_bytes (addr + st.extended_addr + 0) bs st.memory }) byte
          wrong,
      first,
    )

pub length-checked_line :
    (addr : ℕ) (bs : Bytes) (c : ℕ) (rest : Bytes)
    → length (checked_line addr bs c rest) ≡ 11 + length bs * 2 + length rest
unfolding hex_byte
length-checked_line addr bs c rest = omega (arith, length-hex_bytes bs (hex_byte c rest))

pub parse_hex_line-checked_line :
    (addr c : ℕ) (bs rest : Bytes) (st : HexState)
    → length bs ≤ 255
    → length rest ≤ 256
    → addr + st.extended_addr + length bs < 2 ^ 16
    → All IsByte bs
    → c < 256
    → c ≢ complement (length bs + addr / 256 + addr % 256 + byte_sum bs)
    → parse_hex_line (checked_line addr bs c rest) st
      ≡ some (
        false,
        record st {
          byte_count = u32 (st.byte_count + length bs);
          memory = put_bytes (addr + st.extended_addr) bs st.memory;
        },
      )
unfolding hex_byte
parse_hex_line-checked_line addr c bs rest st few short fits ok byte wrong =
    let sum = length bs + addr / 256 + addr % 256 in
    let tail = hex_bytes bs (hex_byte c rest) in
    let size = length-checked_line addr bs c rest in
    let total : low_byte (length bs) + high_byte addr + low_byte addr + low_byte 0 ≡ sum =
      omega arith in
    let fields = hex_byte (addr / 256) (hex_byte (addr % 256) (hex_byte 0 tail)) in
    parse_hex_line_lem (hex_byte (length bs) fields) (length bs) st (omega arith)
      (sscanf_hex-hex_byte (length bs) fields (omega arith))
    ∙ line_fields_lem (checked_line addr bs c rest) (length bs) addr 0 st
        (signed_lt-false _ _ (omega arith) (omega arith))
        (sscanf_hex-hex_word addr (hex_byte 0 tail) (omega arith))
        (sscanf_hex-hex_byte 0 tail (omega arith)) (ground arith)
    ∙ ap (λ t. line_body (length bs) addr 0 tail t st) total
    ∙ line_body_data (length bs) addr tail sum st
    ∙ data_line-wrong addr sum c bs rest st few fits ok byte wrong
