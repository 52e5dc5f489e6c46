-- ===== src/Led/Packet.antt =====
-- The 224-bit packet of a TLC5971 chip, as fields of so many bits, and the frame that `led` sends.
use native.Mathlib.Nat.{pow-succ', div-div-eq-div-mul, mod_def, div-add-mod, mul_comm}
use iss_notify_firmware.Common.{
  ℕ, zero, suc, ◌+◌, ◌*◌, ◌/◌, ◌%◌, ◌^◌, List, [], ◌∷◌, ◌++◌, map, ◌≡◌, refl, sym, ap, ◌∙◌, arith,
  length, take, drop, append_assoc,
}
use iss_notify_firmware.Led.{WhiteBalance, Light}
use iss_notify_firmware.Led.Wire.{bits}

-- A width in bits and the word that is sent in it.
abbrev pub Field : Type 0
Field = ℕ × ℕ

abbrev pub encode : List Field → List ℕ
encode [] = []
encode ((n, w) ∷ fs) = bits n w ++ encode fs

-- Write command 100101, then OUTTMG, EXTGCK, TMGRST, DSPRPT, BLANK = 00110, then three currents.
abbrev header_fields : WhiteBalance → List Field
header_fields wb = (6, 37) ∷ (5, 6) ∷ (7, wb.blue) ∷ (7, wb.green) ∷ (7, wb.red) ∷ []

abbrev pub light_fields : List Light → List Field
light_fields [] = []
light_fields (l ∷ ls) = (16, l.blue) ∷ (16, l.green) ∷ (16, l.red) ∷ light_fields ls

abbrev pub chip_fields : WhiteBalance → List Light → List Field
chip_fields wb ls = header_fields wb ++ light_fields ls

-- The frame of eight lights: the packet of the first four, then that of the last four.
abbrev pub frame_fields : WhiteBalance → List Light → List Field
frame_fields wb lights = chip_fields wb (take 4 lights) ++ chip_fields wb (drop 4 lights)

abbrev from_bits : ℕ → List ℕ → ℕ
from_bits acc [] = acc
from_bits acc (b ∷ bs) = from_bits (acc * 2 + b) bs

-- How a receiver cuts a bit string into words.
abbrev pub read_fields : List ℕ → List ℕ → List ℕ
read_fields [] bs = []
read_fields (n ∷ ns) bs = from_bits 0 (take n bs) ∷ read_fields ns (drop n bs)

mod-high : (w p : ℕ) → w % (p * 2) ≡ w / p % 2 * p + w % p
mod-high w p = omega (
  arith,
  mod_def w (p * 2),
  ap (λ (t : ℕ). p * t) (div-div-eq-div-mul w p 2),
  div-add-mod w p,
  ap (λ (t : ℕ). p * t) (div-add-mod (w / p) 2),
)

from_bits-bits : (n w acc : ℕ) → from_bits acc (bits n w) ≡ acc * 2 ^ n + w % 2 ^ n
from_bits-bits zero w acc = omega arith
from_bits-bits (suc n) w acc =
    rw (pow-succ', mul_comm 2 (2 ^ n), mod-high)
      (omega (arith, from_bits-bits n w (acc * 2 + w / 2 ^ n % 2)))

length-bits : (n w : ℕ) → length (bits n w) ≡ n
length-bits zero w = refl
length-bits (suc n) w = ap suc (length-bits n w)

take-append_length : (xs ys : List ℕ) → take (length xs) (xs ++ ys) ≡ xs
take-append_length [] ys = refl
take-append_length (x ∷ xs) ys = ap (λ t. x ∷ t) (take-append_length xs ys)

drop-append_length : (xs ys : List ℕ) → drop (length xs) (xs ++ ys) ≡ ys
drop-append_length [] ys = refl
drop-append_length (x ∷ xs) ys = drop-append_length xs ys

take-bits : (n w : ℕ) (ys : List ℕ) → take n (bits n w ++ ys) ≡ bits n w
take-bits n w ys =
    ap (λ k. take k (bits n w ++ ys)) (sym (length-bits n w)) ∙ take-append_length (bits n w) ys

drop-bits : (n w : ℕ) (ys : List ℕ) → drop n (bits n w ++ ys) ≡ ys
drop-bits n w ys =
    ap (λ k. drop k (bits n w ++ ys)) (sym (length-bits n w)) ∙ drop-append_length (bits n w) ys

-- Each field is read back cut off to its width.
pub read_fields-encode :
    (fs : List Field) → read_fields (map (λ f. f.0) fs) (encode fs) ≡ map (λ f. f.1 % 2 ^ f.0) fs
read_fields-encode [] = refl
read_fields-encode ((n, w) ∷ fs) =
    rw
      (
        take-bits n w (encode fs),
        drop-bits n w (encode fs),
        from_bits-bits n w 0,
        read_fields-encode fs,
      )
      (ap (λ t. t ∷ map (λ f. f.1 % 2 ^ f.0) fs) (omega arith))

encode-append : (fs gs : List Field) → encode (fs ++ gs) ≡ encode fs ++ encode gs
encode-append [] gs = refl
encode-append ((n, w) ∷ fs) gs = simp (encode-append fs gs, append_assoc)
