-- ===== src/Loader/Hex.antt =====
-- hid_bootloader_cli.c: `parse_hex_line` and `read_intel_hex`. An `int` is its 32-bit pattern, and
-- wraps around where a sum leaves it; a text is the bytes before its final NUL. `none` is undefined behaviour: an access outside of the
-- two arrays, or the value of a variable that no scan has assigned.
pub mod Digits
pub mod Record
pub mod Parsed
pub mod Text
pub mod File
pub mod Ends
pub mod Range
pub mod Refused
pub mod BadFile
pub mod Lines
pub mod LineByLine
pub mod Extended
pub mod Above
use iss_notify_firmware.Common.{
  ℕ, zero, suc, ◌+◌, ◌-◌, ◌*◌, ◌/◌, ◌%◌, ◌^◌, Bool, true, false, ◌&&◌, Option, none, some, List, [],
  ◌∷◌, Bytes, ◌==◌, ltb, leb, if◌then◌else◌, ◌>>=◌, length, drop, u32,
}
use iss_notify_firmware.Loader.{Image, max_memory_size}
use iss_notify_firmware.Loader.Sscanf.{HexScan, assigned, mismatch, at_end, sscanf_hex}

-- The file's static variables.
pub record HexState : Type 0 where
  pub memory : Image
  pub end_record_seen : ℕ
  pub byte_count : ℕ
  pub extended_addr : ℕ

-- `if (!sscanf(…, &v)) return …; rest`: with EOF the rest reads `v` unassigned.
abbrev or_return : {A : Type 0} → HexScan → A → (ℕ → Option A) → Option A
or_return (assigned v) early rest = rest v
or_return mismatch early rest = some early
or_return at_end early rest = none

-- The `int` order of two 32-bit patterns.
abbrev pub signed_lt : ℕ → ℕ → Bool
signed_lt a b = ltb (u32 (a + 2 ^ 31)) (u32 (b + 2 ^ 31))

abbrev pub low_byte : ℕ → ℕ
low_byte v = v % 256

abbrev pub high_byte : ℕ → ℕ
high_byte v = v / 256 % 256

-- `firmware_image[a] = v; firmware_mask[a] = 1;`
unfoldable pub store_byte : ℕ → ℕ → HexState → Option HexState
store_byte a v st =
    if ltb a max_memory_size
    then some (record st {
      memory = record {
        image = λ x. if x == a then v else st.memory.image x;
        mask = λ x. if x == a then 1 else st.memory.mask x;
      };
    })
    else none

-- What the loop of a data line leaves: an early `return 0`, or the pointer, the sum and the state.
pub data Load : Type 0 where
  refused : HexState → Load
  loaded : Bytes → ℕ → HexState → Load

-- `ptr += 2`; past the end of the text there is nothing to read.
abbrev skip_two : Bytes → Option Bytes
skip_two (c ∷ d ∷ s) = some s
skip_two _ = none

-- `while (num != len)`: the loop returns as soon as `num` is 256; `left` counts the rounds up to
-- that.
unfoldable pub load_bytes : ℕ → ℕ → ℕ → ℕ → Bytes → ℕ → HexState → Option Load
load_bytes zero num len addr ptr sum st = none
load_bytes (suc left) num len addr ptr sum st = elim (num == len) [
  | true ↦ some (loaded ptr sum st)
  | false ↦ elim (sscanf_hex 2 ptr) [
    | assigned i ↦
        (store_byte (u32 (addr + st.extended_addr + num)) (low_byte i) st >>= λ st'.
        elim (leb 256 (num + 1)) [
          | true ↦ some (refused st')
          | false ↦
              (skip_two ptr >>= λ ptr'.
              load_bytes left (num + 1) len addr ptr' (sum + low_byte i) st')
        ])
    | mismatch ↦ some (refused st)
    | at_end ↦ some (refused st)
  ]
]

-- The checksum behind a line's data, in `ptr`.
unfoldable pub check_sum : Bytes → ℕ → HexState → Option (Bool × HexState)
check_sum ptr sum st =
    or_return (sscanf_hex 2 ptr) (false, st)
      λ cksum. some (low_byte (low_byte sum + low_byte cksum) == 0, st)

unfoldable pub data_line : ℕ → ℕ → Bytes → ℕ → HexState → Option (Bool × HexState)
data_line len addr ptr sum st =
    load_bytes 256 0 len addr ptr sum (record st { byte_count = u32 (st.byte_count + len) })
    >>= λ r. elim r [
      | refused st' ↦ some (false, st')
      | loaded ptr' sum' st' ↦ check_sum ptr' sum' st'
    ]

-- The lines with code 2 and 4, where the address is moved by `shift` bits; they are never refused.
unfoldable pub extend_address : ℕ → Bytes → ℕ → HexState → Option (Bool × HexState)
extend_address shift ptr sum st =
    or_return (sscanf_hex 4 ptr) (true, st)
      λ i.
        or_return (sscanf_hex 2 (drop 4 ptr)) (true, st)
          λ cksum.
            let total = low_byte (sum + high_byte i + low_byte i) in
            some (
              true,
              (if low_byte (total + low_byte cksum) == 0
                  then record st { extended_addr = u32 (i * 2 ^ shift) }
                  else st),
            )

-- Behind the test of the code.
unfoldable pub line_body : ℕ → ℕ → ℕ → Bytes → ℕ → HexState → Option (Bool × HexState)
line_body len addr code ptr sum st =
    if code == 0
    then data_line len addr ptr sum st
    else if code == 1
    then some (true, record st { end_record_seen = 1 })
    else if code == 2 && len == 2
    then extend_address 4 ptr sum st
    else if code == 4 && len == 2
    then extend_address 16 ptr sum st
    else some (true, st)

-- From the second scan on.
unfoldable pub line_fields : Bytes → ℕ → HexState → Option (Bool × HexState)
line_fields line len st =
    if signed_lt (length line) (u32 (11 + len * 2))
    then some (false, st)
    else or_return (sscanf_hex 4 (drop 3 line)) (false, st)
        λ addr.
          or_return (sscanf_hex 2 (drop 7 line)) (false, st)
            λ code.
              if leb max_memory_size (u32 (addr + st.extended_addr + len))
              then some (false, st)
              else line_body len addr code (drop 9 line)
                  (low_byte len + high_byte addr + low_byte addr + low_byte code) st

-- Behind the test of the first character.
unfoldable pub parse_fields : Bytes → HexState → Option (Bool × HexState)
parse_fields line st =
    if ltb (length line) 11
    then some (false, st)
    else or_return (sscanf_hex 2 (drop 1 line)) (false, st) λ len. line_fields line len st

unfoldable pub parse_hex_line : Bytes → HexState → Option (Bool × HexState)
parse_hex_line [] st = some (false, st)
parse_hex_line (c ∷ s) st = if c == b':' then parse_fields (c ∷ s) st else some (false, st)

-- A C string in a buffer ends at its first NUL.
unfoldable pub c_string : Bytes → Bytes
c_string [] = []
c_string (c ∷ s) = if c == 0 then [] else c ∷ c_string s

-- `fgets`: at most `n` bytes, up to the end of a line, and what is left of the file.
unfoldable pub fgets : ℕ → Bytes → Bytes × Bytes
fgets zero s = ([], s)
fgets (suc n) [] = ([], [])
fgets (suc n) (c ∷ s) =
    let (line, rest) = fgets n s in if c == b'\n' then (c ∷ [], s) else (c ∷ line, rest)

-- `if (*buf) { if (parse_hex_line(buf) == 0) return -2; }`
unfoldable pub read_line : Bytes → HexState → Option (Bool × HexState)
read_line [] st = some (true, st)
read_line (c ∷ s) st = parse_hex_line (c ∷ s) st

-- `while (!feof(fp))`: nothing is left of the file when `fgets` fails. The flag is false for an
-- early `return -2`. A call of `fgets` reads at least one byte, so the fuel is enough if it is above
-- the number of bytes.
unfoldable pub read_lines : ℕ → Bytes → HexState → Option (Bool × HexState)
read_lines zero file st = none
read_lines (suc fuel) [] st = some (true, st)
read_lines (suc fuel) (c ∷ s) st =
    let (line, rest) = fgets 1023 (c ∷ s) in
    read_line (c_string line) st >>= λ (ok, st'). elim ok [
      | false ↦ some (false, st')
      | true ↦ elim (st'.end_record_seen == 0) [
        | true ↦ read_lines fuel rest st'
        | false ↦ some (true, st')
      ]
    ]

-- The state that `read_intel_hex` begins with.
abbrev pub blank : HexState
blank = record {
  memory = record { image = λ a. 0xff; mask = λ a. 0 };
  end_record_seen = 0;
  byte_count = 0;
  extended_addr = 0;
}

-- The `int`s -1 and -2, which `read_intel_hex` returns for an error.
abbrev pub no_file : ℕ
no_file = 2 ^ 32 - 1

abbrev pub bad_line : ℕ
bad_line = 2 ^ 32 - 2

-- The `int` that is returned, and the state; the file is its content, if it can be opened.
unfoldable pub read_intel_hex : Option Bytes → Option (ℕ × HexState)
read_intel_hex none = some (no_file, blank)
read_intel_hex (some file) = read_lines (length file + 1) file blank >>= λ (ok, st).
    some (if ok then (st.byte_count, st) else (bad_line, st))
