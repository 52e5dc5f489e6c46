-- ===== src/Commands/Passes.antt =====
-- commands.c: `set_passes` and `dump_mem`.
pub mod Upload
pub mod Overrun
use iss_notify_firmware.Common.{
  ℕ, zero, suc, ◌+◌, ◌*◌, ◌/◌, ◌%◌, ◌^◌, ◌&&◌, Bool, true, false, Option, none, some, List, [], ◌∷◌,
  ◌++◌, Bytes, codes, length, get_or, set, take, fill, u8, u16, ltb, leb, ◌==◌, if◌then◌else◌,
  ◌>>=◌, min,
}
use iss_notify_firmware.Stdio.{
  Format, lit, space, int16, uint16, uint32, fscanf, two_digits, signed_decimal, unsigned_decimal,
}
use iss_notify_firmware.Firmware.{Firmware, Eeprom, Pass, max_pass, print}

-- "%d\n" and "%lu,%u,"
abbrev pub count_format : Format
count_format = int16 ∷ space ∷ []

abbrev pub pass_format : Format
pass_format = uint32 ∷ lit b',' ∷ uint16 ∷ lit b',' ∷ []

-- `i < num` for a `uint8_t` and the bit pattern of an `int`.
abbrev pub less_int : ℕ → ℕ → Bool
less_int i num = ltb i num && ltb num (2 ^ 15)

-- `block[i] = p`, undefined outside the array.
unfoldable pub store_pass : ℕ → List ℕ → List Pass → Option (List Pass)
store_pass i (t ∷ d ∷ []) block =
    if ltb i max_pass then some (set block i (record { time = t; duration = d })) else none
store_pass i _ block = some block

-- `for (i = 0; i < num; i++)`, with a `uint8_t i` that wraps. `none` is a write out of bounds, or
-- a loop that makes more rounds than the fuel.
unfoldable pub read_passes : ℕ → ℕ → ℕ → List Pass → Bytes → Option (List Pass × Bytes)
read_passes zero num i block input = none
read_passes (suc fuel) num i block input = elim (less_int i num) [
  | false ↦ some (block, input)
  | true ↦
      (let (vs, rest) = fscanf pass_format input in
        store_pass i vs block >>= λ block'. read_passes fuel num (u8 (i + 1)) block' rest)
]

-- `eeprom_update_block(&block, &StoredISSPasses, sizeof(ipass) * num)`. The size is a 16-bit
-- `size_t`; `none` is a read past `block`, or a size that ends within a record.
unfoldable pub update_block : ℕ → List Pass → List Pass → Option (List Pass)
update_block num block stored =
    let size = u16 (6 * num) in
    if leb size (6 * max_pass) && size % 6 == 0
    then some (fill stored (take (size / 6) block))
    else none

-- A `uint8_t` that runs below a limit of at most 255 makes at most 255 rounds.
abbrev pub loop_fuel : ℕ
loop_fuel = 256

module _ {B : Type 0} where
  unfoldable pub set_passes_with : List ℕ → Firmware B → Option (Firmware B)
  set_passes_with (num ∷ []) fw = read_passes loop_fuel num 0 fw.stack fw.input >>= λ (block, rest).
      update_block num block fw.eeprom.passes >>= λ passes. some (
        print (codes "set") (record fw {
          input = rest;
          eeprom = record fw.eeprom { passes = passes; num_passes = u8 num };
        }))
  set_passes_with _ fw = some (print (codes "err") fw)

  -- `none` stands for undefined behaviour and for a command that never ends.
  unfoldable pub set_passes : Firmware B → Option (Firmware B)
  set_passes fw =
      let (vs, rest) = fscanf count_format fw.input in
      set_passes_with vs (record fw { input = rest })

-- "0x%02d - pass: %lu:%u|" for the passes of the array, from number `i` on.
unfoldable pub passes_text : ℕ → List Pass → Bytes
passes_text i [] = []
passes_text i (p ∷ ps) =
    codes "0x"
    ++ (two_digits (i + 2)
        ++ (codes " - pass: "
            ++ (unsigned_decimal p.time
                ++ (codes ":"
                    ++ (unsigned_decimal p.duration ++ (codes "|" ++ passes_text (i + 1) ps))))))

-- `if (npass > MAXPASS) npass = MAXPASS`
unfoldable pub clamp_passes : ℕ → ℕ
clamp_passes npass = if ltb max_pass npass then max_pass else npass

module _ {B : Type 0} where
  unfoldable pub dump_mem : Firmware B → Firmware B
  dump_mem fw =
      let npass = clamp_passes fw.eeprom.num_passes in
      print (passes_text 0 (take npass fw.eeprom.passes)) (
        print (codes "0x01 - npasses: " ++ signed_decimal npass ++ codes "|")
          (print (codes "0x00 - color: " ++ signed_decimal fw.eeprom.color ++ codes "|") fw))
