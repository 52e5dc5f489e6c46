-- ===== src/Twi.antt =====
-- The interface of library/twi.c, the I2C library that hardware/rtc.c calls. That library is not
-- modelled: its two calls are parameters over an abstract bus, a value of `B`.
use iss_notify_firmware.Common.{ℕ, List}

pub record Twi (B : Type 0) : Type 0 where
  -- `twi_writeTo(address, data, length, wait)`: the status, 0 for success. The list is
  -- `data[0..length)`.
  pub write_to : B → ℕ → List ℕ → ℕ → ℕ × B
  -- `twi_readFrom(address, data, length)`: the bytes that were put into `data`; their number is
  -- what the call returns.
  pub read_from : B → ℕ → ℕ → List ℕ × B
