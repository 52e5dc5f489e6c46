-- ===== src/Loader/Program.antt =====
-- hid_bootloader_cli.c: the loop of `main` that programs the image, block by block.
use iss_notify_firmware.Common.{
  ℕ, zero, suc, ◌+◌, ◌-◌, ◌/◌, ◌^◌, Bool, true, false, ◌&&◌, not, Option, none, some, List, [], ◌∷◌,
  ◌++◌, ltb, if◌then◌else◌, ◌>>=◌, bit_and,
}
use iss_notify_firmware.Loader.{Image, ihex_bytes_within_range, ihex_get_data}

-- The device behind `teensy_write(buf, len, timeout)`, over an abstract state: whether the call
-- succeeds, and the new state. The flag says which timeout is passed, 3 s or 0.25 s.
pub record Teensy (D : Type 0) : Type 0 where
  pub write : D → List ℕ → Bool → Bool × D

-- `buf[0]` and `buf[1]`
unfoldable pub block_address : ℕ → ℕ → List ℕ
block_address code_size addr =
    if ltb code_size 0x10000
    then bit_and addr 255 ∷ bit_and (addr / 2 ^ 8) 255 ∷ []
    else bit_and (addr / 2 ^ 8) 255 ∷ bit_and (addr / 2 ^ 16) 255 ∷ []

module _ {D : Type 0} (teensy : Teensy D) (code_size block_size : ℕ) (im : Image) where
  -- Behind the test for unused blocks; `none` is `die`.
  unfoldable pub write_block : ℕ → Bool → D → Option (Bool × D)
  write_block addr first d =
      let (r, d') =
        teensy.write d (block_address code_size addr ++ ihex_get_data addr block_size im) first in
      if r then some (false, d') else none

  -- The body of the loop: the flag `first_block` and the device go through it.
  unfoldable pub program_block : ℕ → Bool → D → Option (Bool × D)
  program_block addr first d =
      if ltb 0 addr && not (ihex_bytes_within_range addr (addr + block_size - 1) im)
      then some (first, d)
      else write_block addr first d

  -- `for (addr = 0; addr < code_size; addr += block_size)`; `none` is `die`, or a loop of more
  -- rounds than the fuel.
  unfoldable pub program : ℕ → ℕ → Bool → D → Option D
  program zero addr first d = none
  program (suc fuel) addr first d = elim (ltb addr code_size) [
    | false ↦ some d
    | true ↦
        (program_block addr first d >>= λ (first', d'). program fuel (addr + block_size) first' d')
  ]
