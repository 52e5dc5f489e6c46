-- ===== src/Rtc.antt =====
-- hardware/rtc.c and hardware/rtc.h: the driver of the real-time clock at I2C address 0x6f. The
-- file's static variables and the bus are the state; a function takes it and returns the new one.
pub mod Bcd
pub mod Chip
pub mod Clock
pub mod Alarm
pub mod Failure
pub mod Ready
use iss_notify_firmware.Common.{
  ℕ, ◌+◌, ◌*◌, ◌/◌, ◌%◌, ◌^◌, bit_and, bit_or, List, [], ◌∷◌, ◌==◌, if◌then◌else◌, length, take,
  fill, get_or, u8,
}
use iss_notify_firmware.Twi.{Twi}

-- `time`: six bytes.
pub record Time : Type 0 where
  pub year : ℕ
  pub month : ℕ
  pub day : ℕ
  pub hour : ℕ
  pub minute : ℕ
  pub second : ℕ

-- The static variables of rtc.c, and the bus.
pub record Rtc (B : Type 0) : Type 0 where
  pub rtc_state : ℕ
  pub tx_buffer : List ℕ
  pub rx_buffer : List ℕ
  pub bus : B

-- A call returns a value and leaves a state.
abbrev Action : Type 0 → Type 0 → Type 0
Action B A = Rtc B → A × Rtc B

infixl 5 ◌>>=◌
abbrev pub ◌>>=◌ : {B A C : Type 0} → Action B A → (A → Action B C) → Action B C
◌>>=◌ m f r = let (a, r') = m r in f a r'

abbrev pub rtc_device_address : ℕ
rtc_device_address = 0x6f

unfoldable pub dec2bcd : ℕ → ℕ
dec2bcd val = u8 (val / 10 * 16 + val % 10)

unfoldable pub bcd2dec : ℕ → ℕ
bcd2dec val = u8 (val / 16 * 10 + val % 16)

unfoldable pub mktime : ℕ → ℕ → ℕ → ℕ → ℕ → ℕ → Time
mktime year month day hour minute second = record {
  year = year;
  month = month;
  day = day;
  hour = hour;
  minute = minute;
  second = second;
}

module _ {B : Type 0} (twi : Twi B) where
  -- `tx_buffer[0] = …; tx_buffer[1] = …; rtc_state = twi_writeTo(…, tx_buffer, n, wait)`.
  unfoldable pub send : List ℕ → ℕ → Rtc B → Rtc B
  send bytes wait r =
      let tx = fill r.tx_buffer bytes in
      let (status, b) = twi.write_to r.bus rtc_device_address (take (length bytes) tx) wait in
      record r { rtc_state = status; tx_buffer = tx; bus = b }

  -- The part of `read_address` behind its error check.
  unfoldable pub receive : Action B ℕ
  receive r =
      let (got, b) = twi.read_from r.bus rtc_device_address 1 in
      let r' = record r { rx_buffer = fill r.rx_buffer got; bus = b } in
      if length got == 0 then (0, r') else (get_or r'.rx_buffer 0 0, r')

  unfoldable pub read_address : ℕ → Action B ℕ
  read_address address r =
      let r' = send (address ∷ []) 1 r in if r'.rtc_state == 0 then receive r' else (0, r')

  unfoldable pub write_address : ℕ → ℕ → Action B ℕ
  write_address address byte r = let r' = send (address ∷ byte ∷ []) 0 r in (r'.rtc_state, r')

  unfoldable pub get_time : Action B Time
  get_time = do
    s ← read_address 0x00
    m ← read_address 0x01
    h ← read_address 0x02
    d ← read_address 0x04
    o ← read_address 0x05
    y ← read_address 0x06
    λ r. (
      mktime (bcd2dec y) (bcd2dec (bit_and o 0x1f)) (bcd2dec (bit_and d 0x3f))
          (bcd2dec (bit_and h 0x3f)) (bcd2dec (bit_and m 0x7f)) (bcd2dec (bit_and s 0x7f)),
      r,
    )

  unfoldable pub set_time : Time → Rtc B → Rtc B
  set_time t r =
      let second = dec2bcd (bit_and t.second 0x7f) in
      let minute = dec2bcd (bit_and t.minute 0x7f) in
      let hour = dec2bcd (bit_and t.hour 0x3f) in
      let day = dec2bcd (bit_and t.day 0x3f) in
      let month = dec2bcd (bit_and t.month 0x1f) in
      let year = dec2bcd t.year in
      send (0x04 ∷ day ∷ month ∷ year ∷ []) 0
        (send (0x00 ∷ u8 (second + 0x80) ∷ minute ∷ hour ∷ []) 0 r)

  unfoldable pub clear_alarm0 : Rtc B → Rtc B
  clear_alarm0 r = send (0x07 ∷ 2 ^ 7 ∷ []) 0 (send (0x0d ∷ 0 ∷ []) 0 r)

  unfoldable pub set_alarm0 : Time → Rtc B → Rtc B
  set_alarm0 t r =
      let second = dec2bcd (bit_and t.second 0x7f) in
      let minute = dec2bcd (bit_and t.minute 0x7f) in
      let hour = dec2bcd (bit_and t.hour 0x3f) in
      let day = dec2bcd (bit_and t.day 0x3f) in
      let month = dec2bcd (bit_and t.month 0x1f) in
      let year = dec2bcd t.year in
      let (raw, r') = read_address 0x03 r in
      let dow = bit_and raw 0x07 in
      let control = bit_or (bit_or (bit_or (2 ^ 6) (2 ^ 5)) (2 ^ 4)) dow in
      send (0x07 ∷ 2 ^ 4 ∷ []) 0
        (send (0x0a ∷ second ∷ minute ∷ hour ∷ control ∷ day ∷ month ∷ year ∷ []) 0 r')

  unfoldable pub reset_rtc : Rtc B → Rtc B
  reset_rtc r =
      let (_, r') = write_address 0x03 0x08 r in let (_, r'') = write_address 0x00 0x80 r' in r''
