-- ===== src/Rtc/Ready.antt =====
-- The driver's two buffers keep their length, whatever the bus does.
use iss_notify_firmware.Common.{
  ℕ, List, [], ◌∷◌, ◌==◌, ◌∙◌, arith, length-fill, Bool-cases, inl, inr,
}
use iss_notify_firmware.Twi.{Twi}
use iss_notify_firmware.Rtc.{
  Time, Rtc, send, receive, read_address, write_address, get_time, set_time, reset_rtc,
  clear_alarm0, rtc_device_address,
}
use iss_notify_firmware.Rtc.Chip.{IsReady}

module _ {B : Type 0} (twi : Twi B) where
  send-IsReady :
      (bytes : List ℕ) (wait : ℕ) (r : Rtc B) → IsReady r → IsReady (send twi bytes wait r)
  unfolding send
  send-IsReady bytes wait r h = record {
    tx_length = length-fill r.tx_buffer bytes ∙ h.tx_length;
    rx_length = h.rx_length;
  }

  receive-IsReady : (r : Rtc B) → IsReady r → IsReady (receive twi r).1
  unfolding receive
  receive-IsReady r h =
      ground (arith, length-fill r.rx_buffer (twi.read_from r.bus rtc_device_address 1).0)

  read_address-IsReady : (a : ℕ) (r : Rtc B) → IsReady r → IsReady (read_address twi a r).1
  unfolding read_address
  read_address-IsReady a r h = elim (Bool-cases ((send twi (a ∷ []) 1 r).rtc_state == 0)) [
    | inl e ↦ rw (e, read_address) (receive-IsReady _ (send-IsReady (a ∷ []) 1 r h))
    | inr e ↦ rw (e, read_address) (send-IsReady (a ∷ []) 1 r h)
  ]

  pub get_time-IsReady : (r : Rtc B) → IsReady r → IsReady (get_time twi r).1
  unfolding get_time
  get_time-IsReady r h = read_address-IsReady 6 _ (
      read_address-IsReady 5 _ (
        read_address-IsReady 4 _
          (read_address-IsReady 2 _ (read_address-IsReady 1 _ (read_address-IsReady 0 r h)))))

  pub set_time-IsReady : (t : Time) (r : Rtc B) → IsReady r → IsReady (set_time twi t r)
  unfolding set_time
  set_time-IsReady t r h = send-IsReady _ _ _ (send-IsReady _ _ _ h)

  pub clear_alarm0-IsReady : (r : Rtc B) → IsReady r → IsReady (clear_alarm0 twi r)
  unfolding clear_alarm0
  clear_alarm0-IsReady r h = send-IsReady _ _ _ (send-IsReady _ _ _ h)

  pub reset_rtc-IsReady : (r : Rtc B) → IsReady r → IsReady (reset_rtc twi r)
  unfolding reset_rtc write_address
  reset_rtc-IsReady r h = send-IsReady _ _ _ (send-IsReady _ _ _ h)
