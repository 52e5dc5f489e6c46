-- ===== src/Loader/Blocks.antt =====
-- What the blocks of an image hold, and that a block that is skipped holds nothing.
use iss_notify_firmware.Common.{
  ℕ, zero, suc, ◌+◌, ◌-◌, ◌≤◌, ◌<◌, false, some, ◌≡◌, refl, ap, ◌∙◌, arith, ◌==◌, ltb,
  if◌then◌else◌, replicate, length, length-replicate, get_elem?,
}
use iss_notify_firmware.Loader.{
  Image, any_masked, ihex_bytes_within_range, copy_bytes, ihex_get_data,
}

-- A byte of the image, 255 where no line of the file has set it.
abbrev pub byte_at : Image → ℕ → ℕ
byte_at im a = if im.mask a == 0 then 255 else im.image a

length-copy_bytes : (n a : ℕ) (im : Image) → length (copy_bytes n a im) ≡ n
unfolding copy_bytes
length-copy_bytes zero a im = refl
length-copy_bytes (suc n) a im = ap suc (length-copy_bytes n (a + 1) im)

get_elem?-replicate : (n k v : ℕ) → k < n → get_elem? (replicate n v) k ≡ some v
get_elem?-replicate zero k v h = absurd (omega arith)
get_elem?-replicate (suc n) zero v h = refl
get_elem?-replicate (suc n) (suc k) v h = get_elem?-replicate n k v (omega arith)

get_elem?-copy_bytes :
    (n a k : ℕ) (im : Image) → k < n → get_elem? (copy_bytes n a im) k ≡ some (byte_at im (a + k))
unfolding copy_bytes
get_elem?-copy_bytes zero a k im h = absurd (omega arith)
get_elem?-copy_bytes (suc n) a zero im h = ap (λ x. some (byte_at im x)) (omega arith)
get_elem?-copy_bytes (suc n) a (suc k) im h =
    get_elem?-copy_bytes n (a + 1) k im (omega arith) ∙ ap (λ x. some (byte_at im x)) (omega arith)

-- `ihex_get_data` brings as many bytes as it is asked for, and each (the one with number `k` below
-- `len`) is that of the image at its address, or 255 where the file has none, if the block ends
-- below the last address; otherwise, so also for a block that ends exactly with the memory, all
-- bytes are 255.
pub ihex_get_data_lem :
    (addr len k : ℕ) (im : Image)
    → k < len
    → (length (ihex_get_data addr len im) ≡ len)
      × (get_elem? (ihex_get_data addr len im) k
          ≡ some (if ltb (addr + len) 0x10000 then byte_at im (addr + k) else 255))
unfolding ihex_get_data
ihex_get_data_lem addr len k im h = ground (
  arith,
  length-copy_bytes len addr im,
  length-replicate {A = ℕ} len 255,
  get_elem?-copy_bytes len addr k im h,
  get_elem?-replicate len k 255 h,
)

copy_bytes_blank :
    (n a : ℕ) (im : Image) → any_masked n a im ≡ false → copy_bytes n a im ≡ replicate n 255
unfolding copy_bytes any_masked
copy_bytes_blank zero a im h = refl
copy_bytes_blank (suc n) a im h = ground (arith, copy_bytes_blank n (a + 1) im)

-- If `ihex_bytes_within_range` finds nothing in a block of at least one byte, `ihex_get_data`
-- brings only 255 for it.
ihex_get_data-range :
    (addr len : ℕ) (im : Image)
    → ihex_bytes_within_range addr (addr + len - 1) im ≡ false
    → 1 ≤ len
    → ihex_get_data addr len im ≡ replicate len 255
unfolding ihex_get_data ihex_bytes_within_range
ihex_get_data-range addr len im none some_length =
    let rounds : addr + len - 1 + 1 - addr ≡ len = omega arith in
    ground (arith, copy_bytes_blank len addr im, ap (λ n. any_masked n addr im) rounds)
