-- ===== src/Blink.antt =====
-- Test/blink/blink.c: a light on pin 6 of port D that is switched on and off for ever.
pub mod Light
use iss_notify_firmware.Common.{ℕ, zero, suc, List, ◌++◌, [], ◌∷◌, set_bit, clear_bit}

-- The registers that the program writes, and what port D has driven so far.
pub record Registers : Type 0 where
  pub clkpr : ℕ
  pub ddrd : ℕ
  pub portd : ℕ
  pub trail : List ℕ

-- A write of port D.
abbrev pub drive : ℕ → Registers → Registers
drive v r = record r { portd = v; trail = r.trail ++ v ∷ [] }

unfoldable pub led_on : Registers → Registers
led_on r = drive (set_bit r.portd 6) r

unfoldable pub led_off : Registers → Registers
led_off r = drive (clear_bit r.portd 6) r

-- `CPU_PRESCALE(0)`, LED_CONFIG and LED_OFF.
unfoldable set_up : Registers → Registers
set_up r = led_off (record r { clkpr = 0; ddrd = set_bit r.ddrd 6 })

-- Rounds of `while (1)`; the delays are not modelled.
unfoldable pub blink : ℕ → Registers → Registers
blink zero r = r
blink (suc n) r = blink n (led_off (led_on r))
