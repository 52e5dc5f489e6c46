-- ===== src/Loader/Wanted.antt =====
-- What a chip is to hold, and what its boot loader does.
use iss_notify_firmware.Common.{
  ℕ, zero, suc, ◌+◌, ◌-◌, ◌*◌, ◌/◌, ◌^◌, ◌≤◌, ◌<◌, Bool, true, false, ◌&&◌, not, List, [], ◌∷◌, ◌≡◌,
  refl, ap, sym, ◌∙◌, arith, ◌==◌, ltb, if◌then◌else◌, bit_and, Bool-cases, inl, inr, ==_iff,
}
use iss_notify_firmware.Common.Bits.{bit_and-mask}
use iss_notify_firmware.Loader.{Image, any_masked, ihex_bytes_within_range, copy_bytes}
use iss_notify_firmware.Loader.Blocks.{byte_at}
use iss_notify_firmware.Loader.Program.{Teensy}

-- The memory after a write of bytes from an address on.
abbrev pub programmed : (ℕ → ℕ) → ℕ → List ℕ → ℕ → ℕ
programmed f a [] = f
programmed f a (b ∷ bs) = programmed (λ x. if x == a then b else f x) (a + 1) bs

-- The boot loader: it takes the block behind a two-byte address and writes it, and the block at
-- address 0 erases the chip first. Address 0xFFFF is not one of a block: it starts the program.
pub record HalfKay {D : Type 0} (teensy : Teensy D) : Type 0 where
  pub flash : D → ℕ → ℕ
  pub accepts :
      (d : D) (low high : ℕ) (bs : List ℕ) (first : Bool)
      → (teensy.write d (low ∷ high ∷ bs) first).0 ≡ true
  pub writes :
      (d : D) (low high : ℕ) (bs : List ℕ) (first : Bool)
      → high * 256 + low < 0xFFFF
      → flash (teensy.write d (low ∷ high ∷ bs) first).1
        ≡ programmed (if high * 256 + low == 0 then (λ x. 255) else flash d) (high * 256 + low) bs

-- The image up to an address, and erased bytes behind.
abbrev pub up_to : Image → ℕ → ℕ → ℕ
up_to im a x = if ltb x a then byte_at im x else 255

-- One more byte.
extend :
    (b : ℕ → ℕ) (a y v : ℕ)
    → v ≡ (if ltb y a then b y else 255)
    → (if y == a then b a else v) ≡ (if ltb y (a + 1) then b y else 255)
extend b a y v h = elim (Bool-cases (y == a)) [
  | inl e ↦
      (let less : ltb y (a + 1) ≡ true = ground arith in
        rw (e, less) (ap b (sym ((==_iff y a).0 e))))
  | inr e ↦ (let same : ltb y (a + 1) ≡ ltb y a = ground arith in rw (e, same) h)
]

pub programmed-copy_bytes :
    (n a : ℕ) (im : Image) (f : ℕ → ℕ)
    → ((x : ℕ) → f x ≡ up_to im a x)
    → (x : ℕ) → programmed f a (copy_bytes n a im) x ≡ up_to im (a + n) x
unfolding copy_bytes
programmed-copy_bytes zero a im f h x = h x ∙ ap (λ k. up_to im k x) (omega arith)
programmed-copy_bytes (suc n) a im f h x =
    programmed-copy_bytes n (a + 1) im (λ y. if y == a then byte_at im a else f y)
      (λ y. extend (byte_at im) a y (f y) (h y)) x
    ∙ ap (λ k. up_to im k x) (omega arith)

any_masked-byte_at :
    (n a x : ℕ) (im : Image) → any_masked n a im ≡ false → a ≤ x → x < a + n → byte_at im x ≡ 255
unfolding any_masked
any_masked-byte_at zero a x im h low high = absurd (omega arith)
any_masked-byte_at (suc n) a x im h low high = grind (arith, any_masked-byte_at n (a + 1) x im)

-- A block without bytes of the file leaves the bytes as they are wanted.
pub up_to-blank :
    (n a : ℕ) (im : Image) → any_masked n a im ≡ false → (x : ℕ) → up_to im a x ≡ up_to im (a + n) x
up_to-blank n a im h x = grind (arith, any_masked-byte_at n a x im h)

pub address-back : (a : ℕ) → a < 2 ^ 16 → bit_and (a / 2 ^ 8) 255 * 256 + bit_and a 255 ≡ a
address-back a h = omega (arith, bit_and-mask 8 a, bit_and-mask 8 (a / 2 ^ 8))

-- Nothing is wanted below address 0.
pub up_to-zero : (im : Image) (x : ℕ) → 255 ≡ up_to im 0 x
up_to-zero im x = let none_below : ltb x 0 ≡ false = ground arith in rw none_below refl

-- A block that is skipped is not the first one, and holds no byte of the file.
pub skipped :
    (a n : ℕ) (im : Image)
    → a + n < 2 ^ 16
    → 1 ≤ n
    → (ltb 0 a && not (ihex_bytes_within_range a (a + n - 1) im)) ≡ true
    → (any_masked n a im ≡ false) × (1 ≤ a)
unfolding ihex_bytes_within_range
skipped a n im inside some_bytes skip =
    let rounds : a + n - 1 + 1 - a ≡ n = omega arith in
    ground (arith, ap (λ k. any_masked k a im) rounds)
