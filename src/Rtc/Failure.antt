-- ===== src/Rtc/Failure.antt =====
-- What the driver makes of a bus that does not answer.
use iss_notify_firmware.Common.{ℕ, List, [], ◌≡◌, ◌≢◌, ◌⊎◌, inl, inr, arith, take, fill, ◌∷◌}
use iss_notify_firmware.Twi.{Twi}
use iss_notify_firmware.Rtc.{
  Rtc, mktime, bcd2dec, send, receive, read_address, get_time, rtc_device_address,
}

module _ {B : Type 0} (twi : Twi B) where
  -- Every write is refused, or every read brings nothing.
  abbrev IsMute : Type 0
  IsMute =
      ((b : B) (bytes : List ℕ) (wait : ℕ) → (twi.write_to b rtc_device_address bytes wait).0 ≢ 0)
      ⊎ ((b : B) → (twi.read_from b rtc_device_address 1).0 ≡ [])

  read_address_mute : (a : ℕ) (r : Rtc B) → IsMute → (read_address twi a r).0 ≡ 0
  unfolding read_address send receive
  read_address_mute a r (inl refused) =
      ground (arith, refused r.bus (take 1 (fill r.tx_buffer (a ∷ []))) 1)
  read_address_mute a r (inr nothing) = ground (
    arith,
    nothing (twi.write_to r.bus rtc_device_address (take 1 (fill r.tx_buffer (a ∷ []))) 1).1,
  )

  -- On a bus where every write is refused, or every read brings nothing, `get_time` returns a time
  -- of all zeros.
  pub get_time_mute :
      (r : Rtc B)
      → IsMute
      → (get_time twi r).0
        ≡ record { year = 0; month = 0; day = 0; hour = 0; minute = 0; second = 0 }
  unfolding get_time mktime bcd2dec
  get_time_mute r mute = simp (λ (a : ℕ) (s : Rtc B). read_address_mute a s mute)
