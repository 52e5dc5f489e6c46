-- ===== src/Rtc/Clock.antt =====
-- Setting and reading the clock.
use native.Mathlib.Nat.{mod-eq_of_lt}
use iss_notify_firmware.Common.{
  ℕ, ◌+◌, ◌-◌, ◌*◌, ◌/◌, ◌%◌, ◌^◌, ◌<◌, ◌≤◌, ◌⊎◌, sym, bit_and, [], ◌∷◌, ◌≡◌, refl, ap, ◌∙◌, arith,
  u8,
}
use iss_notify_firmware.Common.Bits.{bit_and-mask}
use iss_notify_firmware.Twi.{Twi}
use iss_notify_firmware.Rtc.{Time, Rtc, dec2bcd, bcd2dec, mktime, get_time, set_time, reset_rtc}
use iss_notify_firmware.Rtc.Bcd.{dec2bcd_digits, bcd-back}
use iss_notify_firmware.Rtc.Chip.{
  RegisterChip, IsReady, stored, update, registers_of, Holds, send-Holds, read_address-Holds,
  write_address-Holds,
}

-- What the registers say.
pub time_in : (ℕ → ℕ) → Time
time_in f = record {
  year = bcd2dec (f 6);
  month = bcd2dec (bit_and (f 5) 0x1f);
  day = bcd2dec (bit_and (f 4) 0x3f);
  hour = bcd2dec (bit_and (f 2) 0x3f);
  minute = bcd2dec (bit_and (f 1) 0x7f);
  second = bcd2dec (bit_and (f 0) 0x7f);
}

-- The times whose fields survive the masks of `set_time` and `get_time`; every date of this
-- century does.
pub record IsStorable (t : Time) : Type 0 where
  pub year : t.year < 160
  pub month : t.month < 20
  pub day : t.day < 40
  pub hour : t.hour < 40
  pub minute : t.minute < 80
  pub second : t.second < 80

-- The registers after `set_time`.
abbrev set_registers : Time → (ℕ → ℕ) → ℕ → ℕ
set_registers t f =
    stored
      (stored f 0 (
        u8 (dec2bcd (bit_and t.second 0x7f) + 0x80)
        ∷ dec2bcd (bit_and t.minute 0x7f)
        ∷ dec2bcd (bit_and t.hour 0x3f)
        ∷ []))
      4 (dec2bcd (bit_and t.day 0x3f) ∷ dec2bcd (bit_and t.month 0x1f) ∷ dec2bcd t.year ∷ [])

-- A field passes both masks of `k` bits if its code fits them.
pub code-back :
    (k v : ℕ)
    → v < 160
    → v < 2 ^ k
    → v / 10 * 16 + v % 10 < 2 ^ k
    → bcd2dec (bit_and (dec2bcd (bit_and v (2 ^ k - 1))) (2 ^ k - 1)) ≡ v
code-back k v h fits code =
    rw
      (
        bit_and-mask k v,
        mod-eq_of_lt fits,
        bit_and-mask,
        dec2bcd_digits v h,
        mod-eq_of_lt code,
        ← dec2bcd_digits v h,
      )
      (bcd-back v h)

-- The start bit above the seconds does not get through the mask.
second-back : (v : ℕ) → v < 80 → bcd2dec (bit_and (u8 (dec2bcd (bit_and v 0x7f) + 0x80)) 0x7f) ≡ v
second-back v h =
    ap (λ x. bcd2dec (bit_and (u8 (x + 0x80)) 0x7f)) code
    ∙ ap bcd2dec (bit_and-mask 7 (u8 (dec2bcd v + 0x80)) ∙ above)
    ∙ bcd-back v (omega arith)
  where
    code : dec2bcd (bit_and v 0x7f) ≡ dec2bcd v
    code = ap dec2bcd (bit_and-mask 7 v ∙ mod-eq_of_lt (omega arith))

    above : u8 (dec2bcd v + 0x80) % 2 ^ 7 ≡ dec2bcd v
    above = omega (arith, dec2bcd_digits v (omega arith))

time_in-set_registers : (t : Time) (f : ℕ → ℕ) → IsStorable t → time_in (set_registers t f) ≡ t
unfolding time_in
time_in-set_registers t f h = λ i. record {
  year = bcd-back t.year h.year i;
  month = code-back 5 t.month (omega arith) (omega arith) (omega arith) i;
  day = code-back 6 t.day (omega arith) (omega arith) (omega arith) i;
  hour = code-back 6 t.hour (omega arith) (omega arith) (omega arith) i;
  minute = code-back 7 t.minute (omega arith) (omega arith) (omega arith) i;
  second = second-back t.second h.second i;
}

elsewhere : (t : Time) (f : ℕ → ℕ) (x : ℕ) → (x ≡ 3) ⊎ (7 ≤ x) → set_registers t f x ≡ f x
elsewhere t f x h = ground arith

time_in_reset :
    (f : ℕ → ℕ) → time_in (update (update f 3 0x08) 0 0x80) ≡ record (time_in f) { second = 0 }
unfolding time_in bcd2dec
time_in_reset f = refl

-- The alarm's registers are not those of the time.
pub time_in_cleared : (f : ℕ → ℕ) → time_in (update (update f 0x0d 0) 7 0x80) ≡ time_in f
unfolding time_in
time_in_cleared f = refl

module _ {B : Type 0} (twi : Twi B) (chip : RegisterChip twi) where
  pub set_time-Holds :
      {f : ℕ → ℕ} (t : Time) (r : Rtc B)
      → Holds twi chip f r
      → Holds twi chip (set_registers t f) (set_time twi t r)
  unfolding set_time
  set_time-Holds t r h =
      send-Holds twi chip _ _ _ _ (omega arith) (send-Holds twi chip _ _ _ _ (omega arith) h)

  pub get_time-Holds :
      {f : ℕ → ℕ} (r : Rtc B)
      → Holds twi chip f r
      → let (t, r') = get_time twi r in (t ≡ time_in f) × Holds twi chip f r'
  unfolding get_time time_in mktime
  get_time-Holds r h =
      let a = read_address-Holds twi chip 0 r h in
      let b = read_address-Holds twi chip 1 _ a.1 in
      let c = read_address-Holds twi chip 2 _ b.1 in
      let d = read_address-Holds twi chip 4 _ c.1 in
      let e = read_address-Holds twi chip 5 _ d.1 in
      let g = read_address-Holds twi chip 6 _ e.1 in (cc (a.0, b.0, c.0, d.0, e.0, g.0), g.1)

  pub reset_rtc-Holds :
      {f : ℕ → ℕ} (r : Rtc B)
      → Holds twi chip f r
      → Holds twi chip (update (update f 3 0x08) 0 0x80) (reset_rtc twi r)
  unfolding reset_rtc
  reset_rtc-Holds r h =
      write_address-Holds twi chip 0 0x80 _ (write_address-Holds twi chip 3 0x08 r h)

  -- On a chip that keeps its registers, with the driver's buffers of eight bytes: `get_time` after
  -- `set_time(t)` returns `t`, for a time whose fields fit their masks, and any register `x` other
  -- than 0 to 2 and 4 to 6 is as before.
  pub get_time-set_time :
      (t : Time) (r : Rtc B) (x : ℕ)
      → IsReady r
      → IsStorable t
      → (x ≡ 3) ⊎ (7 ≤ x)
      → ((get_time twi (set_time twi t r)).0 ≡ t)
        × (registers_of twi chip (set_time twi t r) x ≡ registers_of twi chip r x)
  get_time-set_time t r x ready fits other =
      let done = set_time-Holds t r (record { ready = ready; holds = refl }) in
      (
        (get_time-Holds (set_time twi t r) done).0 ∙ time_in-set_registers t _ fits,
        ap (λ (f : ℕ → ℕ). f x) done.holds ∙ elsewhere t (registers_of twi chip r) x other,
      )

  pub get_time-reset_rtc :
      (r : Rtc B)
      → IsReady r
      → let before = registers_of twi chip r in
        (registers_of twi chip (reset_rtc twi r) ≡ update (update before 3 0x08) 0 0x80)
        × ((get_time twi (reset_rtc twi r)).0 ≡ record (get_time twi r).0 { second = 0 })
  get_time-reset_rtc r ready =
      let start : Holds twi chip (registers_of twi chip r) r = record {
        ready = ready;
        holds = refl;
      } in
      let done = reset_rtc-Holds r start in
      (
        done.holds,
        (get_time-Holds (reset_rtc twi r) done).0
            ∙ time_in_reset (registers_of twi chip r)
            ∙ ap (λ (t : Time). record t { second = 0 }) (sym (get_time-Holds r start).0),
      )
