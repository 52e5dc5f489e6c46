-- ===== src/Rtc/Alarm.antt =====
-- Setting and clearing alarm 0.
use iss_notify_firmware.Common.{
  ℕ, ◌+◌, ◌%◌, ◌^◌, ◌≤◌, ◌⊎◌, bit_and, bit_or, [], ◌∷◌, ◌≡◌, refl, ap, ◌∙◌, arith, true, ◌==◌,
  ==_iff,
}
use iss_notify_firmware.Common.Bits.{bit_and-mask, all_below, all_below_sound}
use iss_notify_firmware.Twi.{Twi}
use iss_notify_firmware.Rtc.{Time, Rtc, dec2bcd, bcd2dec, set_alarm0, clear_alarm0}
use iss_notify_firmware.Rtc.Bcd.{bcd-back}
use iss_notify_firmware.Rtc.Chip.{
  RegisterChip, IsReady, stored, update, registers_of, Holds, send-Holds, read_address-Holds,
}
use iss_notify_firmware.Rtc.Clock.{IsStorable, code-back}

-- What the alarm registers 0x0a to 0x10 say, read with the masks of the time registers.
pub alarm_in : (ℕ → ℕ) → Time
alarm_in f = record {
  year = bcd2dec (f 0x10);
  month = bcd2dec (bit_and (f 0x0f) 0x1f);
  day = bcd2dec (bit_and (f 0x0e) 0x3f);
  hour = bcd2dec (bit_and (f 0x0c) 0x3f);
  minute = bcd2dec (bit_and (f 0x0b) 0x7f);
  second = bcd2dec (bit_and (f 0x0a) 0x7f);
}

abbrev alarm_registers : Time → (ℕ → ℕ) → ℕ → ℕ
alarm_registers t f =
    stored
      (stored f 0x0a (
        dec2bcd (bit_and t.second 0x7f)
        ∷ dec2bcd (bit_and t.minute 0x7f)
        ∷ dec2bcd (bit_and t.hour 0x3f)
        ∷ bit_or 0x70 (bit_and (f 3) 0x07)
        ∷ dec2bcd (bit_and t.day 0x3f)
        ∷ dec2bcd (bit_and t.month 0x1f)
        ∷ dec2bcd t.year
        ∷ []))
      7 (2 ^ 4 ∷ [])

alarm_in-alarm_registers :
    (t : Time) (f : ℕ → ℕ) → IsStorable t → alarm_in (alarm_registers t f) ≡ t
unfolding alarm_in
alarm_in-alarm_registers t f h = λ i. record {
  year = bcd-back t.year h.year i;
  month = code-back 5 t.month (omega arith) (omega arith) (omega arith) i;
  day = code-back 6 t.day (omega arith) (omega arith) (omega arith) i;
  hour = code-back 6 t.hour (omega arith) (omega arith) (omega arith) i;
  minute = code-back 7 t.minute (omega arith) (omega arith) (omega arith) i;
  second = code-back 7 t.second (omega arith) (omega arith) (omega arith) i;
}

weekday_table : all_below 8 (λ d. bit_or 0x70 d == 0x70 + d) ≡ true
unfolding all_below
weekday_table = refl

-- The weekday register of the alarm: match on all fields, on the weekday that the clock shows.
weekday : (v : ℕ) → bit_or 0x70 (bit_and v 0x07) ≡ 0x70 + v % 8
weekday v =
    ap (bit_or 0x70) (bit_and-mask 3 v)
    ∙ (==_iff _ _).0 (all_below_sound 8 _ (v % 8) weekday_table (omega arith))

alarm_elsewhere :
    (t : Time) (f : ℕ → ℕ) (x : ℕ) → (x ≤ 6) ⊎ (0x11 ≤ x) → alarm_registers t f x ≡ f x
alarm_elsewhere t f x h = ground arith

module _ {B : Type 0} (twi : Twi B) (chip : RegisterChip twi) where
  set_alarm0-Holds :
      {f : ℕ → ℕ} (t : Time) (r : Rtc B)
      → Holds twi chip f r
      → Holds twi chip (alarm_registers t f) (set_alarm0 twi t r)
  unfolding set_alarm0
  set_alarm0-Holds {f} t r h =
      let day = read_address-Holds twi chip 3 r h in
      rw day.0 (
        send-Holds twi chip _ _ _ _ (omega arith) (send-Holds twi chip _ _ _ _ (omega arith) day.1))

  pub clear_alarm0-Holds :
      {f : ℕ → ℕ} (r : Rtc B)
      → Holds twi chip f r
      → Holds twi chip (update (update f 0x0d 0) 7 (2 ^ 7)) (clear_alarm0 twi r)
  unfolding clear_alarm0
  clear_alarm0-Holds r h =
      send-Holds twi chip _ _ _ _ (omega arith) (send-Holds twi chip _ _ _ _ (omega arith) h)

  -- On a chip that keeps its registers, with the driver's buffers of eight bytes: `set_alarm0(t)`
  -- leaves `t` in the alarm's registers, for a time whose fields fit their masks, with all match
  -- bits and the weekday that the clock shows beside them; it writes the bit of alarm 0 to the
  -- control register, and leaves any register `x` at 0 to 6 or above 0x10 alone.
  pub set_alarm0_lem :
      (t : Time) (r : Rtc B) (x : ℕ)
      → IsReady r
      → IsStorable t
      → (x ≤ 6) ⊎ (0x11 ≤ x)
      → let before = registers_of twi chip r in
        let after = registers_of twi chip (set_alarm0 twi t r) in
        (alarm_in after ≡ t)
        × (after 0x0d ≡ 0x70 + before 3 % 8)
        × (after 7 ≡ 0x10)
        × (after x ≡ before x)
  set_alarm0_lem t r x ready fits other =
      let done = set_alarm0-Holds t r (record { ready = ready; holds = refl }) in
      rw done.holds (
        alarm_in-alarm_registers t (registers_of twi chip r) fits,
        weekday (registers_of twi chip r 3),
        refl,
        alarm_elsewhere t (registers_of twi chip r) x other,
      )

  -- On a chip that keeps its registers, with the driver's buffers of eight bytes: `clear_alarm0`
  -- writes 0 to the alarm's weekday register and the output bit alone to the control register, and
  -- no other register changes.
  pub clear_alarm0_lem :
      (r : Rtc B)
      → IsReady r
      → registers_of twi chip (clear_alarm0 twi r)
        ≡ update (update (registers_of twi chip r) 0x0d 0) 7 0x80
  clear_alarm0_lem r ready = (clear_alarm0-Holds r (record { ready = ready; holds = refl })).holds
