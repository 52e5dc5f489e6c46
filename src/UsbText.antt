-- ===== src/UsbText.antt =====
-- hardware/usb.c: `send_str`, over the call of the USB serial library. The flash memory is a
-- function from addresses to bytes.
use iss_notify_firmware.Common.{
  ℕ, zero, suc, ◌+◌, ◌<◌, ◌≢◌, true, false, Option, none, some, [], ◌∷◌, Bytes, length, ◌==◌, ◌≡◌,
  refl, ap, sym, ◌∙◌, arith, ne→==-false,
}

module _ {S : Type 0} (usb_serial_putchar : ℕ → S → S) where
  -- `while (1)`; `none` is a text of more bytes than the fuel.
  unfoldable send_str : ℕ → (ℕ → ℕ) → ℕ → S → Option S
  send_str zero flash s st = none
  send_str (suc fuel) flash s st = elim (flash s == 0) [
    | true ↦ some st
    | false ↦ send_str fuel flash (s + 1) (usb_serial_putchar (flash s) st)
  ]

  -- The bytes from an address on, and a zero behind them.
  abbrev pub Holds : (ℕ → ℕ) → ℕ → Bytes → Type 0
  Holds flash s [] = flash s ≡ 0
  Holds flash s (b ∷ bs) = (flash s ≡ b) × (b ≢ 0) × Holds flash (s + 1) bs

  abbrev pub put_all : Bytes → S → S
  put_all [] st = st
  put_all (b ∷ bs) st = put_all bs (usb_serial_putchar b st)

  send_str_lem :
      (text : Bytes) (fuel : ℕ) (flash : ℕ → ℕ) (s : ℕ) (st : S)
      → length text < fuel
      → Holds flash s text
      → send_str fuel flash s st ≡ some (put_all text st)
  unfolding send_str
  send_str_lem text zero flash s st enough h = absurd (omega arith)
  send_str_lem [] (suc fuel) flash s st enough h =
      let last : (flash s == 0) ≡ true = ground arith in rw (last, send_str) refl
  send_str_lem (b ∷ bs) (suc fuel) flash s st enough h =
      let more : (flash s == 0) ≡ false = ne→==-false _ _ (λ e. h.1 (sym h.0 ∙ e)) in
      rw (more, send_str)
        (ap (λ c. send_str fuel flash (s + 1) (usb_serial_putchar c st)) h.0
          ∙ send_str_lem bs fuel flash (s + 1) (usb_serial_putchar b st) (omega arith) h.2)
