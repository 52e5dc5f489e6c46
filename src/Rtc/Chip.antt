-- ===== src/Rtc/Chip.antt =====
-- The clock chip on the bus, as its data sheet and the I2C library's comments describe it between
-- two ticks of the clock: a write sets the chip's address pointer and stores the bytes behind it
-- in consecutive registers, a read of one byte returns the register under the pointer.
use iss_notify_firmware.Common.{
  ℕ, ◌+◌, ◌≤◌, List, [], ◌∷◌, ◌==◌, ◌≡◌, refl, ap, ap₂, ◌∙◌, arith, if◌then◌else◌, length, fill,
  length-fill, take-fill, get_or,
}
use iss_notify_firmware.Twi.{Twi}
use iss_notify_firmware.Rtc.{Rtc, send, receive, read_address, write_address, rtc_device_address}

abbrev pub update : (ℕ → ℕ) → ℕ → ℕ → ℕ → ℕ
update f a d x = if x == a then d else f x

-- Consecutive registers from `a` on.
abbrev pub stored : (ℕ → ℕ) → ℕ → List ℕ → ℕ → ℕ
stored f a [] = f
stored f a (d ∷ ds) = stored (update f a d) (a + 1) ds

pub record RegisterChip {B : Type 0} (twi : Twi B) : Type 0 where
  pub registers : B → ℕ → ℕ
  pub pointer : B → ℕ
  pub write_status :
      (b : B) (bytes : List ℕ) (wait : ℕ) → (twi.write_to b rtc_device_address bytes wait).0 ≡ 0
  pub write_pointer :
      (b : B) (a wait : ℕ) → pointer (twi.write_to b rtc_device_address (a ∷ []) wait).1 ≡ a
  pub write_registers :
      (b : B) (a wait : ℕ) (ds : List ℕ)
      → registers (twi.write_to b rtc_device_address (a ∷ ds) wait).1 ≡ stored (registers b) a ds
  pub read_byte : (b : B) → (twi.read_from b rtc_device_address 1).0 ≡ registers b (pointer b) ∷ []
  pub read_registers : (b : B) → registers (twi.read_from b rtc_device_address 1).1 ≡ registers b

-- The two static buffers keep their eight bytes.
pub record IsReady {B : Type 0} (r : Rtc B) : Type 0 where
  pub tx_length : length r.tx_buffer ≡ 8
  pub rx_length : length r.rx_buffer ≡ 8

module _ {B : Type 0} (twi : Twi B) (chip : RegisterChip twi) where
  -- The chip's registers in a state of the driver.
  abbrev pub registers_of : Rtc B → ℕ → ℕ
  registers_of r = chip.registers r.bus

  -- A state with given registers.
  pub record Holds (f : ℕ → ℕ) (r : Rtc B) : Type 0 where
    pub ready : IsReady r
    pub holds : registers_of r ≡ f

  pub send-Holds :
      {f : ℕ → ℕ} (a wait : ℕ) (ds : List ℕ) (r : Rtc B)
      → length ds ≤ 7
      → Holds f r
      → Holds (stored f a ds) (send twi (a ∷ ds) wait r)
  unfolding send
  send-Holds a wait ds r fits h = record {
    ready = record {
      tx_length = length-fill r.tx_buffer (a ∷ ds) ∙ h.ready.tx_length;
      rx_length = h.ready.rx_length;
    };
    holds =
        rw
          (
            take-fill r.tx_buffer (a ∷ ds) (omega (arith, h.ready.tx_length)),
            chip.write_registers r.bus a wait ds,
          )
          (ap (λ g. stored g a ds) h.holds);
  }

  send-address :
      {f : ℕ → ℕ} (a : ℕ) (r : Rtc B)
      → Holds f r
      → let r' = send twi (a ∷ []) 1 r in (r'.rtc_state ≡ 0) × (chip.pointer r'.bus ≡ a)
  unfolding send
  send-address a r h =
      rw (take-fill r.tx_buffer (a ∷ []) (omega (arith, h.ready.tx_length)))
        (chip.write_status r.bus (a ∷ []) 1, chip.write_pointer r.bus a 1)

  get_or-fill : (xs : List ℕ) (v : ℕ) → 1 ≤ length xs → get_or (fill xs (v ∷ [])) 0 0 ≡ v
  get_or-fill [] v h = absurd (omega arith)
  get_or-fill (x ∷ xs) v h = refl

  receive-Holds :
      {f : ℕ → ℕ} (a : ℕ) (r : Rtc B)
      → chip.pointer r.bus ≡ a
      → Holds f r
      → let (v, r') = receive twi r in (v ≡ f a) × Holds f r'
  unfolding receive
  receive-Holds a r p h = rw (chip.read_byte r.bus) (
    get_or-fill r.rx_buffer _ (omega (arith, h.ready.rx_length))
        ∙ ap₂ (λ (g : ℕ → ℕ) x. g x) h.holds p,
    record {
      ready = record {
        tx_length = h.ready.tx_length;
        rx_length = length-fill r.rx_buffer _ ∙ h.ready.rx_length;
      };
      holds = chip.read_registers r.bus ∙ h.holds;
    },
  )

  -- A read returns the register and leaves the registers alone.
  pub read_address-Holds :
      {f : ℕ → ℕ} (a : ℕ) (r : Rtc B)
      → Holds f r
      → let (v, r') = read_address twi a r in (v ≡ f a) × Holds f r'
  unfolding read_address
  read_address-Holds a r h =
      let sent = send-address a r h in
      simp sent.0
        (receive-Holds a (send twi (a ∷ []) 1 r) sent.1 (send-Holds a 1 [] r (omega arith) h))

  pub write_address-Holds :
      {f : ℕ → ℕ} (a byte : ℕ) (r : Rtc B)
      → Holds f r
      → Holds (update f a byte) (write_address twi a byte r).1
  unfolding write_address
  write_address-Holds a byte r h = send-Holds a 0 (byte ∷ []) r (omega arith) h
