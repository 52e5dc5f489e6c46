-- ===== src/Loader/Hex/Range.antt =====
-- The range test of `parse_hex_line` with a large extended address.
use iss_notify_firmware.Common.{
  ℕ, suc, ◌+◌, ◌^◌, ◌<◌, ◌≤◌, false, none, [], ◌∷◌, Bytes, ◌≡◌, refl, ◌∙◌, arith, ◌==◌, ltb, length,
  u32,
}
use iss_notify_firmware.Loader.Hex.{
  HexState, low_byte, store_byte, load_bytes, data_line, line_body, parse_hex_line,
}
use iss_notify_firmware.Loader.Hex.Digits.{hex_byte, sscanf_hex-hex_byte}
use iss_notify_firmware.Loader.Hex.Record.{hex_line}
use iss_notify_firmware.Loader.Hex.Parsed.{parse_hex_line-body}

store_byte-none : (a v : ℕ) (st : HexState) → 2 ^ 16 ≤ a → store_byte a v st ≡ none
unfolding store_byte
store_byte-none a v st h = let outside : ltb a 0x10000 ≡ false = ground arith in rw outside

-- The first byte already lies outside.
load_bytes-none :
    (left len addr b : ℕ) (ptr : Bytes) (sum : ℕ) (st : HexState)
    → b < 256
    → 2 ^ 16 ≤ u32 (addr + st.extended_addr)
    → len < 256
    → load_bytes (suc left) 0 (suc len) addr (hex_byte b ptr) sum st ≡ none
unfolding load_bytes
load_bytes-none left len addr b ptr sum st byte outside few =
    let on : (0 == suc len) ≡ false = ground arith in
    rw
      (
        on,
        sscanf_hex-hex_byte b ptr byte,
        store_byte-none (u32 (addr + st.extended_addr + 0)) (low_byte b) st (omega arith),
        load_bytes,
      )
      refl

data_line-none :
    (len addr : ℕ) (ptr : Bytes) (sum : ℕ) (st : HexState)
    → load_bytes 256 0 len addr ptr sum (record st { byte_count = u32 (st.byte_count + len) })
      ≡ none
    → data_line len addr ptr sum st ≡ none
unfolding data_line
data_line-none len addr ptr sum st e = rw (e, data_line) refl

-- With the extended address 0xFFFF0000, a printed data line of one to 255 values, the first of
-- which is a byte, that ends at or above address 2^16 passes the range test, and its first byte is
-- stored out of bounds: the line has no result.
pub parse_hex_line_overrun :
    (addr b : ℕ) (bs : Bytes) (st : HexState)
    → b < 256
    → suc (length bs) ≤ 255
    → addr < 2 ^ 16
    → st.extended_addr ≡ 0xFFFF0000
    → 2 ^ 16 ≤ addr + suc (length bs)
    → parse_hex_line (hex_line 0 addr (b ∷ bs) []) st ≡ none
unfolding line_body
parse_hex_line_overrun addr b bs st byte few word base past =
    let wraps : u32 (addr + st.extended_addr + suc (length bs)) < 2 ^ 16 = omega arith in
    parse_hex_line-body 0 addr (b ∷ bs) [] st (omega arith) few (omega arith) word wraps
    ∙ data_line-none (suc (length bs)) addr _ _ st (
        load_bytes-none 255 (length bs) addr b _ _
          (record st { byte_count = u32 (st.byte_count + suc (length bs)) }) byte (omega arith)
          (omega arith))
