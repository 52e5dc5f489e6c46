-- ===== src/Loader/Hex/Record.antt =====
-- A data line as the Intel format prints it, with its checksum.
use iss_notify_firmware.Common.{
  ℕ, zero, suc, ◌+◌, ◌-◌, ◌*◌, ◌/◌, ◌%◌, ◌^◌, ◌<◌, ◌≤◌, true, false, some, [], ◌∷◌, Bytes, ◌≡◌,
  refl, ap, ap₂, ◌∙◌, arith, ◌==◌, ltb, leb, if◌then◌else◌, length, All, u32,
}
use iss_notify_firmware.Loader.{Image}
use iss_notify_firmware.Loader.Hex.{
  HexState, signed_lt, low_byte, store_byte, loaded, load_bytes, check_sum, data_line, line_body,
}
use iss_notify_firmware.Loader.Hex.Digits.{hex_byte, sscanf_hex-hex_byte}

abbrev pub put_byte : ℕ → ℕ → Image → Image
put_byte a v im = record {
  image = λ x. if x == a then v else im.image x;
  mask = λ x. if x == a then 1 else im.mask x;
}

-- Bytes one after the other from an address on.
abbrev pub put_bytes : ℕ → Bytes → Image → Image
put_bytes a [] im = im
put_bytes a (b ∷ bs) im = put_bytes (a + 1) bs (put_byte a b im)

abbrev pub hex_bytes : Bytes → Bytes → Bytes
hex_bytes [] s = s
hex_bytes (b ∷ bs) s = hex_byte b (hex_bytes bs s)

abbrev pub byte_sum : Bytes → ℕ
byte_sum [] = 0
byte_sum (b ∷ bs) = b + byte_sum bs

-- A byte that makes the sum of all bytes of the line a multiple of 256.
abbrev pub complement : ℕ → ℕ
complement sum = (256 - sum % 256) % 256

-- The line of a code, an address and bytes, and what follows it.
abbrev pub hex_line : ℕ → ℕ → Bytes → Bytes → Bytes
hex_line code addr bs rest =
    let sum = length bs + addr / 256 + addr % 256 + code + byte_sum bs in
    b':'
    ∷ hex_byte (length bs) (
        hex_byte (addr / 256)
          (hex_byte (addr % 256) (hex_byte code (hex_bytes bs (hex_byte (complement sum) rest)))))

abbrev pub IsByte : ℕ → Type 0
IsByte b = b < 256

store_byte_lem :
    (a v : ℕ) (st : HexState)
    → a < 2 ^ 16
    → store_byte a v st ≡ some (record st { memory = put_byte a v st.memory })
unfolding store_byte
store_byte_lem a v st h = let inside : ltb a 0x10000 ≡ true = ground arith in rw inside

-- One round of the loop.
load_bytes_round :
    (left num len addr sum b : ℕ) (ptr : Bytes) (st : HexState)
    → num < len
    → len ≤ 255
    → addr + st.extended_addr + len < 2 ^ 16
    → b < 256
    → load_bytes (suc left) num len addr (hex_byte b ptr) sum st
      ≡ load_bytes left
          (num + 1)
          len
          addr
          ptr
          (sum + b)
          (record st { memory = put_byte (addr + st.extended_addr + num) b st.memory })
unfolding load_bytes
load_bytes_round left num len addr sum b ptr st more few fits byte =
    let on : (num == len) ≡ false = ground arith in
    let go : leb 256 (num + 1) ≡ false = ground arith in
    let low : b % 256 ≡ b = omega arith in
    let index : u32 (addr + st.extended_addr + num) ≡ addr + st.extended_addr + num = omega arith in
    rw
      (
        on,
        sscanf_hex-hex_byte b ptr byte,
        low,
        index,
        store_byte_lem (addr + st.extended_addr + num) b st (omega arith),
        go,
        load_bytes,
      )
      (unfold hex_byte in
        ap
          (λ v.
            load_bytes left (num + 1) len addr ptr (sum + v)
              (record st { memory = put_byte (addr + st.extended_addr + num) b st.memory }))
          low)

load_bytes_done :
    (left num len addr sum : ℕ) (rest : Bytes) (st : HexState)
    → num ≡ len
    → load_bytes (suc left) num len addr rest sum st ≡ some (loaded rest (sum + 0) st)
unfolding load_bytes
load_bytes_done left num len addr sum rest st e =
    let done : (num == len) ≡ true = ground arith in
    let same : sum ≡ sum + 0 = omega arith in
    rw (done, load_bytes) (ap (λ s. some (loaded rest s st)) same)

pub load_bytes-hex_bytes :
    (left num len addr sum : ℕ) (bs rest : Bytes) (st : HexState)
    → num + length bs ≡ len
    → len ≤ 255
    → length bs < left
    → addr + st.extended_addr + len < 2 ^ 16
    → All IsByte bs
    → load_bytes left num len addr (hex_bytes bs rest) sum st
      ≡ some (
          loaded rest
            (sum + byte_sum bs)
            (record st { memory = put_bytes (addr + st.extended_addr + num) bs st.memory }))
load_bytes-hex_bytes zero num len addr sum bs rest st e few more fits ok = absurd (omega arith)
load_bytes-hex_bytes (suc left) num len addr sum [] rest st e few more fits ok =
    load_bytes_done left num len addr sum rest st (omega arith)
load_bytes-hex_bytes (suc left) num len addr sum (b ∷ bs) rest st e few more fits ok =
    let a = addr + st.extended_addr + num in
    let next : addr + st.extended_addr + (num + 1) ≡ a + 1 = omega arith in
    let total : sum + b + byte_sum bs ≡ sum + (b + byte_sum bs) = omega arith in
    let st' = record st { memory = put_byte a b st.memory } in
    load_bytes_round left num len addr sum b (hex_bytes bs rest) st (omega arith) few fits ok.0
    ∙ load_bytes-hex_bytes left (num + 1) len addr (sum + b) bs rest st' (omega arith) few
        (omega arith) fits ok.1
    ∙ ap₂
        (λ s k.
          some (loaded rest s (record st { memory = put_bytes k bs (put_byte a b st.memory) })))
        total next

-- The checksum of the line fits.
check_sum-complement :
    (sum : ℕ) (rest : Bytes) (st : HexState)
    → check_sum (hex_byte (complement sum) rest) sum st ≡ some (true, st)
unfolding check_sum
check_sum-complement sum rest st =
    let zero_sum : (low_byte (low_byte sum + low_byte (complement sum)) == 0) ≡ true =
      ground arith in
    rw (sscanf_hex-hex_byte (complement sum) rest (omega arith), zero_sum)

pub data_line-hex_bytes :
    (addr sum : ℕ) (bs rest : Bytes) (st : HexState)
    → length bs ≤ 255
    → addr + st.extended_addr + length bs < 2 ^ 16
    → All IsByte bs
    → data_line
        (length bs)
        addr
        (hex_bytes bs (hex_byte (complement (sum + byte_sum bs)) rest))
        sum
        st
      ≡ some (
        true,
        record st {
          byte_count = u32 (st.byte_count + length bs);
          memory = put_bytes (addr + st.extended_addr) bs st.memory;
        },
      )
unfolding data_line
data_line-hex_bytes addr sum bs rest st few fits ok =
    let counted = record st { byte_count = u32 (st.byte_count + length bs) } in
    let first : addr + st.extended_addr + 0 ≡ addr + st.extended_addr = omega arith in
    rw (
      load_bytes-hex_bytes 256 0 (length bs) addr sum bs
          (hex_byte (complement (sum + byte_sum bs)) rest) counted (omega arith) few (omega arith)
          fits ok,
      check_sum-complement,
      first,
    )

pub length-hex_bytes : (bs s : Bytes) → length (hex_bytes bs s) ≡ length bs * 2 + length s
unfolding hex_byte
length-hex_bytes [] s = omega arith
length-hex_bytes (b ∷ bs) s = omega (arith, length-hex_bytes bs s)

pub signed_lt-false : (a b : ℕ) → b ≤ a → a < 2 ^ 31 → signed_lt a b ≡ false
signed_lt-false a b h k = ground arith

pub line_body_data :
    (len addr : ℕ) (ptr : Bytes) (sum : ℕ) (st : HexState)
    → line_body len addr 0 ptr sum st ≡ data_line len addr ptr sum st
unfolding line_body
line_body_data len addr ptr sum st = refl

pub length-hex_line :
    (code addr : ℕ) (bs rest : Bytes)
    → length (hex_line code addr bs rest) ≡ 11 + length bs * 2 + length rest
unfolding hex_byte
length-hex_line code addr bs rest = omega (arith, length-hex_bytes bs _)
