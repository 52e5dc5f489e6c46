-- ===== src/Loader/Flash.antt =====
-- What the chip's memory holds after the programming.
use iss_notify_firmware.Common.{
  ℕ, zero, suc, ◌+◌, ◌-◌, ◌*◌, ◌/◌, ◌^◌, ◌≤◌, ◌<◌, Bool, true, false, ◌&&◌, not, some, ◌∷◌, ◌≡◌,
  refl, ap, ◌∙◌, arith, ◌==◌, ltb, leb, if◌then◌else◌, bit_and, Bool-cases, ◌⊎◌, inl, inr, ==_iff,
}
use iss_notify_firmware.Loader.{
  Image, any_masked, ihex_bytes_within_range, copy_bytes, ihex_get_data,
}
use iss_notify_firmware.Loader.Blocks.{byte_at}
use iss_notify_firmware.Loader.Program.{Teensy, block_address, write_block, program_block, program}
use iss_notify_firmware.Loader.Wanted.{
  up_to, up_to-blank, programmed, programmed-copy_bytes, HalfKay, address-back, skipped, up_to-zero,
}

module _ {D : Type 0} (teensy : Teensy D) (kay : HalfKay teensy) (code_size block_size : ℕ)
    (im : Image) where
  -- The memory holds the image up to an address; before the first block it may hold anything.
  Programmed : ℕ → D → Type 0
  Programmed a d = (x : ℕ) → kay.flash d x ≡ up_to im a x

  erased :
      (a : ℕ) (d : D)
      → (a ≡ 0) ⊎ Programmed a d
      → (x : ℕ) → (if a == 0 then (λ (y : ℕ). 255) else kay.flash d) x ≡ up_to im a x
  unfolding Programmed
  erased a d (inl e) x = rw e (up_to-zero im x)
  erased a d (inr h) x = elim (Bool-cases (a == 0)) [
    | inl e ↦ rw (e, (==_iff a 0).0 e) (up_to-zero im x)
    | inr e ↦ rw e (h x)
  ]

  write_block-Programmed :
      (a : ℕ) (first : Bool) (d : D)
      → 1 ≤ block_size
      → a + block_size ≤ code_size
      → code_size < 2 ^ 16
      → (a ≡ 0) ⊎ Programmed a d
      → (d' : D) × (write_block teensy code_size block_size im a first d ≡ some (false, d'))
        × Programmed (a + block_size) d'
  unfolding write_block block_address ihex_get_data Programmed
  write_block-Programmed a first d some_bytes inside small h =
      let low = bit_and a 255 in
      let high = bit_and (a / 2 ^ 8) 255 in
      let bs = copy_bytes block_size a im in
      let d' = (teensy.write d (low ∷ high ∷ bs) first).1 in
      let short : ltb code_size 0x10000 ≡ true = ground arith in
      let fits : leb 0x10000 (a + block_size) ≡ false = ground arith in
      let back : high * 256 + low ≡ a = address-back a (omega arith) in
      let written : kay.flash d'
          ≡ programmed (if a == 0 then (λ (y : ℕ). 255) else kay.flash d) a bs =
        kay.writes d low high bs first (omega arith)
        ∙ ap (λ k. programmed (if k == 0 then (λ (y : ℕ). 255) else kay.flash d) k bs) back in
      (
        d',
        rw (short, fits, kay.accepts d low high bs first) refl,
        λ x.
            ap (λ (f : ℕ → ℕ). f x) written
            ∙ programmed-copy_bytes block_size a im _ (erased a d h) x,
      )

  skip-Programmed :
      (a : ℕ) (d : D)
      → (any_masked block_size a im ≡ false) × (1 ≤ a)
      → (a ≡ 0) ⊎ Programmed a d
      → Programmed (a + block_size) d
  unfolding Programmed
  skip-Programmed a d blank (inl e) = absurd (omega (arith, blank.1))
  skip-Programmed a d blank (inr h) = λ x. h x ∙ up_to-blank block_size a im blank.0 x

  program_block-Programmed :
      (a : ℕ) (first : Bool) (d : D)
      → 1 ≤ block_size
      → a + block_size ≤ code_size
      → code_size < 2 ^ 16
      → (a ≡ 0) ⊎ Programmed a d
      → (first' : Bool) × (d' : D) × (program_block teensy code_size block_size im a first d
          ≡ some (first', d'))
        × Programmed (a + block_size) d'
  unfolding program_block
  program_block-Programmed a first d some_bytes inside small h =
      elim (Bool-cases (ltb 0 a && not (ihex_bytes_within_range a (a + block_size - 1) im))) [
        | inl skip ↦ (
          first,
          d,
          rw skip refl,
          skip-Programmed a d (skipped a block_size im (omega arith) some_bytes skip) h,
        )
        | inr use_it ↦
            (let (d', e, p) = write_block-Programmed a first d some_bytes inside small h in
              (false, d', rw use_it e, p))
      ]

  below :
      (a : ℕ) (d : D)
      → (a ≡ 0) ⊎ Programmed a d
      → code_size ≡ a
      → (x : ℕ) → x < code_size
      → kay.flash d x ≡ byte_at im x
  unfolding Programmed
  below a d (inl e) all x small = absurd (omega arith)
  below a d (inr h) all x small =
      let inside : ltb x a ≡ true = ground arith in
      h x ∙ ap (λ b. if b then byte_at im x else 255) inside

  program-Programmed :
      (fuel n a : ℕ) (first : Bool) (d : D)
      → n < fuel
      → code_size ≡ a + n * block_size
      → 1 ≤ block_size
      → code_size < 2 ^ 16
      → (a ≡ 0) ⊎ Programmed a d
      → (d' : D) × (program teensy code_size block_size im fuel a first d ≡ some d')
        × ((x : ℕ) → x < code_size → kay.flash d' x ≡ byte_at im x)
  unfolding program
  program-Programmed zero n a first d more whole some_bytes small h = absurd (omega arith)
  program-Programmed (suc fuel) zero a first d more whole some_bytes small h = (
    d,
    (let off : ltb a code_size ≡ false = ground arith in rw (off, program) refl),
    below a d h (omega arith),
  )
  program-Programmed (suc fuel) (suc n) a first d more whole some_bytes small h =
      let on : ltb a code_size ≡ true = ground arith in
      let (first', d', e, p) =
        program_block-Programmed a first d some_bytes (omega arith) small h in
      let (d'', e', q) =
        program-Programmed fuel n (a + block_size) first' d' (omega arith) (omega arith) some_bytes
          small (inr p) in
      (d'', rw (on, program) (rw e e'), q)

  -- On a chip that writes the blocks where their address says and is erased by the one at address
  -- 0: if the code size is a number of whole blocks of at least one byte and below 64 K, and the
  -- fuel above that number, the programming loop ends without an error, and each byte of the
  -- chip's memory below the code size is that of the image, and 255 where the file has none,
  -- whatever the memory held before.
  pub program-byte_at :
      (fuel blocks : ℕ) (d : D)
      → blocks < fuel
      → code_size ≡ blocks * block_size
      → 1 ≤ block_size
      → code_size < 2 ^ 16
      → (d' : D) × (program teensy code_size block_size im fuel 0 true d ≡ some d')
        × ((x : ℕ) → x < code_size → kay.flash d' x ≡ byte_at im x)
  program-byte_at fuel blocks d enough whole some_bytes small =
      program-Programmed fuel blocks 0 true d enough (omega arith) some_bytes small (inl refl)
