-- ===== src/Commands/Passes/Upload.antt =====
-- What the host uploads is what is stored, and what is dumped.
use iss_notify_firmware.Common.{
  ℕ, zero, suc, ◌+◌, ◌*◌, ◌/◌, ◌%◌, ◌^◌, ◌≤◌, ◌<◌, ◌&&◌, true, some, List, [], ◌∷◌, ◌++◌, Bytes,
  codes, All, length, set, take, fill, u8, u16, ltb, leb, ◌==◌, ◌>>=◌, ◌≡◌, refl, ap, ◌∙◌, arith,
  take-fill, append_assoc,
}
use iss_notify_firmware.Stdio.{fscanf, unsigned_decimal, signed_decimal}
use iss_notify_firmware.Stdio.Digits.{NoSpace, unsigned_decimal-NoSpace}
use iss_notify_firmware.Stdio.Fields.{
  fscanf-lit, fscanf-int16, fscanf-uint16, fscanf-uint32, fscanf-space,
}
use iss_notify_firmware.Firmware.{Firmware, Pass, max_pass, print}
use iss_notify_firmware.Commands.Passes.{
  count_format, pass_format, less_int, store_pass, read_passes, update_block, loop_fuel,
  set_passes_with, set_passes, passes_text, clamp_passes, dump_mem,
}

-- The host's side: "t,d," for each pass, and their number on a line before.
abbrev records : List Pass → Bytes → Bytes
records [] rest = rest
records (p ∷ ps) rest =
    unsigned_decimal p.time ++ b',' ∷ (unsigned_decimal p.duration ++ b',' ∷ records ps rest)

abbrev pub upload_text : List Pass → Bytes → Bytes
upload_text ps rest = unsigned_decimal (length ps) ++ b'\n' ∷ records ps rest

-- The fields fit their C types.
abbrev pub IsPass : Pass → Type 0
IsPass p = (p.time < 2 ^ 32) × (p.duration < 2 ^ 16)

records-NoSpace : (ps : List Pass) (rest : Bytes) → NoSpace rest → NoSpace (records ps rest)
records-NoSpace [] rest h = h
records-NoSpace (p ∷ ps) rest h = unsigned_decimal-NoSpace p.time _

scan_pass :
    (p : Pass) (s : Bytes)
    → IsPass p
    → fscanf pass_format
        (unsigned_decimal p.time ++ b',' ∷ (unsigned_decimal p.duration ++ b',' ∷ s))
      ≡ (p.time ∷ p.duration ∷ [], s)
scan_pass p s h =
    rw
      (
        fscanf-uint32 p.time _ _ h.0 refl,
        fscanf-lit b',',
        fscanf-uint16 p.duration _ _ h.1 refl,
        fscanf-lit b',',
      )
      (unfold fscanf in refl)

-- The array after the loop has stored `ps` from index `i` on.
stored_from : ℕ → List Pass → List Pass → List Pass
stored_from i [] block = block
stored_from i (p ∷ ps) block = stored_from (suc i) ps (set block i p)

stored_from-suc :
    (i : ℕ) (ps : List Pass) (b : Pass) (block : List Pass)
    → stored_from (suc i) ps (b ∷ block) ≡ b ∷ stored_from i ps block
unfolding stored_from
stored_from-suc i [] b block = refl
stored_from-suc i (p ∷ ps) b block = stored_from-suc (suc i) ps b (set block i p)

stored_from-fill :
    (ps block : List Pass) → length ps ≤ length block → stored_from 0 ps block ≡ fill block ps
unfolding stored_from
stored_from-fill [] [] h = refl
stored_from-fill [] (b ∷ block) h = refl
stored_from-fill (p ∷ ps) [] h = absurd (omega arith)
stored_from-fill (p ∷ ps) (b ∷ block) h =
    stored_from-suc 0 ps p block ∙ ap (λ t. p ∷ t) (stored_from-fill ps block (omega arith))

stored_round :
    (fuel num i : ℕ) (p : Pass) (block : List Pass) (rest : Bytes)
    → ltb i max_pass ≡ true
    → (store_pass i (p.time ∷ p.duration ∷ []) block >>= λ block'.
        read_passes fuel num (u8 (i + 1)) block' rest)
      ≡ read_passes fuel num (u8 (i + 1)) (set block i p) rest
unfolding store_pass
stored_round fuel num i p block rest inside = rw inside

-- With at most ten records the loop ends, within bounds, with all of them in the array.
read_passes-records :
    (ps : List Pass) (fuel i num : ℕ) (block : List Pass) (rest : Bytes)
    → All IsPass ps
    → i + length ps ≡ num
    → num ≤ max_pass
    → length ps < fuel
    → read_passes fuel num i block (records ps rest) ≡ some (stored_from i ps block, rest)
unfolding read_passes stored_from
read_passes-records ps zero i num block rest h e k l = absurd (omega arith)
read_passes-records [] (suc fuel) i num block rest h e k l = ground arith
read_passes-records (p ∷ ps) (suc fuel) i num block rest h e k l =
    let more : less_int i num ≡ true = ground arith in
    let inside : ltb i max_pass ≡ true = ground arith in
    let next : u8 (i + 1) ≡ suc i = omega arith in
    rw (more, read_passes)
      (rw (scan_pass p (records ps rest) h.0) (
        stored_round fuel num i p block (records ps rest) inside
        ∙ ap (λ k. read_passes fuel num k (set block i p) (records ps rest)) next
        ∙ read_passes-records ps fuel (suc i) num (set block i p) rest h.1 (omega arith) k
            (omega arith)))

scan_count :
    (ps : List Pass) (rest : Bytes)
    → length ps ≤ max_pass
    → NoSpace rest
    → fscanf count_format (upload_text ps rest) ≡ (length ps ∷ [], records ps rest)
scan_count ps rest few clear =
    rw
      (
        fscanf-int16 (length ps) _ _ (omega arith) refl,
        fscanf-space _ _ (records-NoSpace ps rest clear),
      )
      (unfold fscanf in refl)

update_block-fill :
    (ps block stored : List Pass)
    → length ps ≤ max_pass
    → length block ≡ max_pass
    → update_block (length ps) (fill block ps) stored ≡ some (fill stored ps)
unfolding update_block
update_block-fill ps block stored h k =
    let size : u16 (6 * length ps) / 6 ≡ length ps = omega arith in
    let fits : leb (u16 (6 * length ps)) 60 && u16 (6 * length ps) % 6 == 0 ≡ true = ground arith in
    rw (fits, size, take-fill block ps (omega arith))

clamp_few : (n : ℕ) → n ≤ max_pass → clamp_passes n ≡ n
unfolding clamp_passes
clamp_few n h = ground arith

-- What `dump_mem` prints of a colour and the passes.
abbrev pub dump_text : ℕ → List Pass → Bytes
dump_text color ps =
    (codes "0x00 - color: " ++ signed_decimal color ++ codes "|")
    ++ ((codes "0x01 - npasses: " ++ signed_decimal (length ps) ++ codes "|") ++ passes_text 0 ps)

module _ {B : Type 0} where
  -- The state after an upload: the passes and their number are in the EEPROM, the text is read,
  -- and the reply is sent.
  abbrev pub uploaded : Firmware B → List Pass → Bytes → Firmware B
  uploaded fw ps rest = record fw {
    input = rest;
    output = fw.output ++ codes "set";
    eeprom = record fw.eeprom { passes = fill fw.eeprom.passes ps; num_passes = length ps };
  }

  pub set_passes-upload :
      (fw : Firmware B) (ps : List Pass) (rest : Bytes)
      → fw.input ≡ upload_text ps rest
      → length ps ≤ max_pass
      → All IsPass ps
      → NoSpace rest
      → length fw.stack ≡ max_pass
      → set_passes fw ≡ some (uploaded fw ps rest)
  unfolding set_passes set_passes_with print
  set_passes-upload fw ps rest text few fits clear array =
      let count : fscanf count_format fw.input ≡ (length ps ∷ [], records ps rest) =
        ap (fscanf count_format) text ∙ scan_count ps rest few clear in
      let loop : read_passes loop_fuel (length ps) 0 fw.stack (records ps rest)
          ≡ some (fill fw.stack ps, rest) =
        read_passes-records ps loop_fuel 0 (length ps) fw.stack rest fits (omega arith) few
          (omega arith)
        ∙ ap (λ b. some (b, rest)) (stored_from-fill ps fw.stack (omega arith)) in
      let byte : u8 (length ps) ≡ length ps = omega arith in
      rw (count, loop, update_block-fill ps fw.stack fw.eeprom.passes few array, byte)

  pub dump_mem_stored :
      (fw : Firmware B) (ps : List Pass)
      → fw.eeprom.num_passes ≡ length ps
      → take (length ps) fw.eeprom.passes ≡ ps
      → length ps ≤ max_pass
      → (dump_mem fw).output ≡ fw.output ++ dump_text fw.eeprom.color ps
  unfolding dump_mem print
  dump_mem_stored fw ps n same few =
      let clamped : clamp_passes fw.eeprom.num_passes ≡ length ps =
        ap clamp_passes n ∙ clamp_few (length ps) few in
      simp (clamped, same, append_assoc)

  dump_mem-upload :
      (fw : Firmware B) (ps : List Pass) (rest : Bytes)
      → fw.input ≡ upload_text ps rest
      → length ps ≤ max_pass
      → All IsPass ps
      → NoSpace rest
      → length fw.stack ≡ max_pass
      → length fw.eeprom.passes ≡ max_pass
      → (fw' : Firmware B) × (set_passes fw ≡ some fw')
        × ((dump_mem fw').output ≡ fw.output ++ codes "set" ++ dump_text fw.eeprom.color ps)
  dump_mem-upload fw ps rest text few fits clear array slots = (
    uploaded fw ps rest,
    set_passes-upload fw ps rest text few fits clear array,
    dump_mem_stored (uploaded fw ps rest) ps refl (take-fill fw.eeprom.passes ps (omega arith)) few,
  )
