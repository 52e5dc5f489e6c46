-- ===== src/Led/Frame.antt =====
-- What `led` makes of the global colours: the bit stream that the two chips receive.
use iss_notify_firmware.Common.{
  ℕ, zero, suc, ◌+◌, ◌≤◌, ◌<◌, List, [], ◌∷◌, ◌++◌, ◌≡◌, refl, sym, arith, length, take, drop,
  get_or, take_all, length-drop, append-nil,
}
use iss_notify_firmware.Led.{
  LedPins, WhiteBalance, Light, dark, write_word, write_light, write_lights, write_chip, led,
}
use iss_notify_firmware.Led.Wire.{bits, clocked_in, IsIdle, Wrote, Wrote-trans, write_word-Wrote}
use iss_notify_firmware.Led.Packet.{Field, encode, light_fields, chip_fields, frame_fields}

-- Writing the fields one after the other.
write_fields : List Field → LedPins → LedPins
write_fields [] p = p
write_fields ((n, w) ∷ fs) p = write_fields fs (write_word w n p)

write_fields-Wrote :
    (fs : List Field) (p : LedPins) → IsIdle p → Wrote p (encode fs) (write_fields fs p)
unfolding write_fields
write_fields-Wrote [] p h = record {
  wire = sym (append-nil (clocked_in p));
  idle = h;
  others = refl;
  direction = refl;
}
write_fields-Wrote ((n, w) ∷ fs) p h =
    let first = write_word-Wrote w n p h in
    Wrote-trans (bits n w) (encode fs) first (write_fields-Wrote fs (write_word w n p) first.idle)

write_fields-append :
    (fs gs : List Field) (p : LedPins)
    → write_fields (fs ++ gs) p ≡ write_fields gs (write_fields fs p)
unfolding write_fields
write_fields-append [] gs p = refl
write_fields-append ((n, w) ∷ fs) gs p = write_fields-append fs gs (write_word w n p)

drop-get_or :
    (i : ℕ) (ls : List Light) → i < length ls → drop i ls ≡ get_or ls i dark ∷ drop (i + 1) ls
drop-get_or i [] h = absurd (omega arith)
drop-get_or zero (l ∷ ls) h = refl
drop-get_or (suc i) (l ∷ ls) h =
    let e : suc i + 1 ≡ suc (i + 1) = omega arith in rw e (drop-get_or i ls (omega arith))

-- The loop writes the rows `i`, …, `i + n - 1`.
write_lights-fields :
    (n i : ℕ) (ls : List Light) (p : LedPins)
    → i + n ≤ length ls
    → write_lights n i ls p ≡ write_fields (light_fields (take n (drop i ls))) p
unfolding write_lights write_light write_fields
write_lights-fields zero i ls p h = refl
write_lights-fields (suc n) i ls p h =
    rw (drop-get_or i ls (omega arith))
      (write_lights-fields n (i + 1) ls (write_light (get_or ls i dark) p) (omega arith))

write_chip-fields :
    (wb : WhiteBalance) (i : ℕ) (ls : List Light) (p : LedPins)
    → i + 4 ≤ length ls
    → write_chip wb i ls p ≡ write_fields (chip_fields wb (take 4 (drop i ls))) p
unfolding write_chip write_fields
write_chip-fields wb i ls p h = write_lights-fields 4 i ls _ h

take-drop_all : (ls : List Light) → length ls ≡ 8 → take 4 (drop 4 ls) ≡ drop 4 ls
take-drop_all ls h = take_all 4 (drop 4 ls) (omega (arith, length-drop 4 ls))

led-fields :
    (wb : WhiteBalance) (ls : List Light) (p : LedPins)
    → length ls ≡ 8
    → led wb ls p ≡ write_fields (frame_fields wb ls) p
unfolding led
led-fields wb ls p h =
    rw
      (
        write_chip-fields wb 0 ls p (omega arith),
        write_chip-fields wb 4 ls _ (omega arith),
        take-drop_all ls h,
      )
      (sym (write_fields-append (chip_fields wb (take 4 ls)) (chip_fields wb (drop 4 ls)) p))

-- With eight lights, port F a byte and the clock pin low, `led(lights)` sends the chips one frame:
-- for each chip the write command, the configuration, the low seven bits of the three currents and
-- the colours of its four lights in order. The clock pin ends low, and the other pins of port F
-- and its directions are as before.
pub led-frame :
    (wb : WhiteBalance) (lights : List Light) (p : LedPins)
    → length lights ≡ 8
    → IsIdle p
    → Wrote p (encode (frame_fields wb lights)) (led wb lights p)
led-frame wb lights p h idle =
    rw (led-fields wb lights p h) (write_fields-Wrote (frame_fields wb lights) p idle)
