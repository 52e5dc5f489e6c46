-- ===== src/Commands/Passes/Overrun.antt =====
-- What `set_passes` does with more passes than its array holds.
use native.Mathlib.Decide.{dec_lt}
use iss_notify_firmware.Common.{
  ℕ, zero, suc, ◌+◌, ◌^◌, ◌<◌, true, Option, none, some, List, [], ◌∷◌, Bytes, u8, ◌>>=◌, ◌≡◌, refl,
  arith,
}
use iss_notify_firmware.Stdio.{fscanf}
use iss_notify_firmware.Firmware.{Firmware, Pass, max_pass}
use iss_notify_firmware.Commands.Passes.{
  count_format, pass_format, less_int, read_passes, update_block, loop_fuel, set_passes_with,
  set_passes,
}

bind_none :
    {A B : Type 0} (m : Option A) (f : A → Option B) → ((a : A) → f a ≡ none) → (m >>= f) ≡ none
bind_none none f h = refl
bind_none (some a) f h = h a

-- A count of 256 or more is never reached by the `uint8_t` index: the loop never ends, and no
-- number of rounds is enough.
read_passes_endless :
    (fuel num i : ℕ) (block : List Pass) (input : Bytes)
    → 255 < num
    → num < 2 ^ 15
    → i < 256
    → read_passes fuel num i block input ≡ none
unfolding read_passes
read_passes_endless zero num i block input h k l = refl
read_passes_endless (suc fuel) num i block input h k l =
    let more : less_int i num ≡ true = ground arith in
    let rest : Bytes = (fscanf pass_format input).1 in
    rw (more, read_passes)
      (bind_none _ _ (λ b. read_passes_endless fuel num (u8 (i + 1)) b rest h k (omega arith)))

update_block_overrun :
    (num : ℕ) (block stored : List Pass)
    → 10 < num
    → num < 256
    → update_block num block stored ≡ none
unfolding update_block
update_block_overrun num block stored h k = ground arith

module _ {B : Type 0} where
  -- If a count from 11 to 32767 is read, then, whatever follows it, `set_passes` does not end with
  -- a reply: it accesses its array of ten passes out of bounds, or its loop makes more rounds than
  -- the fuel of 256.
  pub set_passes_overrun :
      (fw : Firmware B) (num : ℕ) (rest : Bytes)
      → fscanf count_format fw.input ≡ (num ∷ [], rest)
      → max_pass < num
      → num < 2 ^ 15
      → set_passes fw ≡ none
  unfolding set_passes set_passes_with
  set_passes_overrun fw num rest count many int = rw count (elim (dec_lt num 256) [
    | yes h ↦
        bind_none (read_passes loop_fuel num 0 fw.stack rest) _
          (λ r. rw (update_block_overrun num r.0 fw.eeprom.passes many h))
    | no h ↦ rw (read_passes_endless loop_fuel num 0 fw.stack rest (omega arith) int (omega arith))
  ])
