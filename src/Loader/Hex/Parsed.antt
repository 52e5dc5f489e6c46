-- ===== src/Loader/Hex/Parsed.antt =====
-- `parse_hex_line` on lines as the Intel format prints them.
use iss_notify_firmware.Common.{
  ℕ, ◌+◌, ◌*◌, ◌/◌, ◌%◌, ◌^◌, ◌<◌, ◌≤◌, true, false, some, ◌∷◌, Bytes, ◌≡◌, ap, ◌∙◌, arith, ltb,
  leb, length, All, u32, drop,
}
use iss_notify_firmware.Loader.Sscanf.{assigned, sscanf_hex}
use iss_notify_firmware.Loader.Hex.{
  HexState, signed_lt, low_byte, high_byte, line_body, line_fields, parse_fields, parse_hex_line,
}
use iss_notify_firmware.Loader.Hex.Digits.{hex_byte, sscanf_hex-hex_byte, sscanf_hex-hex_word}
use iss_notify_firmware.Loader.Hex.Record.{
  IsByte, hex_bytes, length-hex_line, line_body_data, put_bytes, signed_lt-false,
  data_line-hex_bytes, complement, byte_sum, hex_line,
}

-- A line whose fields are scanned and whose end lies below the limit.
pub line_fields_lem :
    (line : Bytes) (len addr code : ℕ) (st : HexState)
    → signed_lt (length line) (u32 (11 + len * 2)) ≡ false
    → sscanf_hex 4 (drop 3 line) ≡ assigned addr
    → sscanf_hex 2 (drop 7 line) ≡ assigned code
    → leb 0x10000 (u32 (addr + st.extended_addr + len)) ≡ false
    → line_fields line len st
      ≡ line_body len addr code
          (drop 9 line)
          (low_byte len + high_byte addr + low_byte addr + low_byte code)
          st
unfolding line_fields
line_fields_lem line len addr code st whole at kind inside = rw (whole, at, kind, inside)

pub parse_hex_line_lem :
    (s : Bytes) (len : ℕ) (st : HexState)
    → 10 ≤ length s
    → sscanf_hex 2 s ≡ assigned len
    → parse_hex_line (b':' ∷ s) st ≡ line_fields (b':' ∷ s) len st
unfolding parse_hex_line parse_fields
parse_hex_line_lem s len st long count =
    let enough : ltb (length (b':' ∷ s)) 11 ≡ false = ground arith in rw (enough, count)

-- Any line with two-digit fields up to its body.
pub parse_hex_line-body :
    (code addr : ℕ) (bs rest : Bytes) (st : HexState)
    → code < 256
    → length bs ≤ 255
    → length rest ≤ 256
    → addr < 2 ^ 16
    → u32 (addr + st.extended_addr + length bs) < 2 ^ 16
    → let sum = length bs + addr / 256 + addr % 256 + code in
      parse_hex_line (hex_line code addr bs rest) st
      ≡ line_body
          (length bs)
          addr
          code
          (hex_bytes bs (hex_byte (complement (sum + byte_sum bs)) rest))
          sum
          st
unfolding hex_byte
parse_hex_line-body code addr bs rest st byte few short word fits =
    let sum = length bs + addr / 256 + addr % 256 + code in
    let tail = hex_bytes bs (hex_byte (complement (sum + byte_sum bs)) rest) in
    let size = length-hex_line code addr bs rest in
    let total : low_byte (length bs) + high_byte addr + low_byte addr + low_byte code ≡ sum =
      omega arith in
    let fields = hex_byte (addr / 256) (hex_byte (addr % 256) (hex_byte code tail)) in
    parse_hex_line_lem (hex_byte (length bs) fields) (length bs) st (omega arith)
      (sscanf_hex-hex_byte (length bs) fields (omega arith))
    ∙ line_fields_lem (hex_line code addr bs rest) (length bs) addr code st
        (signed_lt-false _ _ (omega arith) (omega arith))
        (sscanf_hex-hex_word addr (hex_byte code tail) word) (sscanf_hex-hex_byte code tail byte)
        (ground arith)
    ∙ ap (λ t. line_body (length bs) addr code tail t st) total

-- A data line of at most 255 bytes.
pub parse_hex_line-hex_line :
    (addr : ℕ) (bs rest : Bytes) (st : HexState)
    → length bs ≤ 255
    → length rest ≤ 256
    → addr + st.extended_addr + length bs < 2 ^ 16
    → All IsByte bs
    → parse_hex_line (hex_line 0 addr bs rest) st
      ≡ some (
        true,
        record st {
          byte_count = u32 (st.byte_count + length bs);
          memory = put_bytes (addr + st.extended_addr) bs st.memory;
        },
      )
parse_hex_line-hex_line addr bs rest st few short fits ok =
    parse_hex_line-body 0 addr bs rest st (omega arith) few short (omega arith) (omega arith)
    ∙ line_body_data (length bs) addr _ _ st
    ∙ data_line-hex_bytes addr _ bs rest st few fits ok
