-- ===== src/Led.antt =====
-- hardware/led.c and hardware/led.h: the driver of the two TLC5971 LED chips, which shifts words
-- out on two pins of port F, most significant bit first. A `uint8_t` or `uint16_t` is a number;
-- the cast of an argument is written where a caller may pass more.
pub mod Wire
pub mod Packet
pub mod Frame
use iss_notify_firmware.Common.{
  ℕ, zero, suc, ◌+◌, ◌^◌, bit_and, bit_or, List, ◌∷◌, ◌==◌, if◌then◌else◌, get_or, set_bit,
  clear_bit,
}

-- Port F: its output register, its direction register, and the values that the output register
-- had before, the newest first.
pub record LedPins : Type 0 where
  pub portf : ℕ
  pub ddrf : ℕ
  pub trail : List ℕ

-- The globals TLC_Blue_WB, TLC_Green_WB and TLC_Red_WB.
pub record WhiteBalance : Type 0 where
  pub blue : ℕ
  pub green : ℕ
  pub red : ℕ

-- One row of `uint16_t show[8][3]`: the words 0, 1 and 2.
pub record Light : Type 0 where
  pub blue : ℕ
  pub green : ℕ
  pub red : ℕ

abbrev pub dark : Light
dark = record { blue = 0; green = 0; red = 0 }

-- A write of PORTF.
unfoldable pub put : ℕ → LedPins → LedPins
put v p = record { portf = v; ddrf = p.ddrf; trail = p.portf ∷ p.trail }

unfoldable pub sin_high : LedPins → LedPins
unfolding put
sin_high p = put (set_bit p.portf 1) p

unfoldable pub sin_low : LedPins → LedPins
unfolding put
sin_low p = put (clear_bit p.portf 1) p

unfoldable pub sclk_high : LedPins → LedPins
unfolding put
sclk_high p = put (set_bit p.portf 0) p

unfoldable pub sclk_low : LedPins → LedPins
unfolding put
sclk_low p = put (clear_bit p.portf 0) p

-- `LED_INIT; SIN_LOW; SCLK_LOW;`
unfoldable pub led_init : LedPins → LedPins
unfolding sin_low sclk_low
led_init p = sclk_low (sin_low (record p { ddrf = bit_or p.ddrf 0x03 }))

-- The body of the loop of `write_word` at bit `i`.
unfoldable pub shift_bit : ℕ → ℕ → LedPins → LedPins
shift_bit word i p =
    let low = sin_low p in
    sclk_low (sclk_high (if bit_and word (2 ^ i) == 0 then low else sin_high low))

-- `for (i = len - 1; i >= 0; i--)`, with the rounds that are left.
unfoldable pub shift_bits : ℕ → ℕ → LedPins → LedPins
shift_bits word zero p = p
shift_bits word (suc i) p = shift_bits word i (shift_bit word i p)

-- `len` is at most 16 in every call: `1 << i` stays within 16 bits.
unfoldable pub write_word : ℕ → ℕ → LedPins → LedPins
write_word word len p = sin_low (shift_bits word len p)

-- The three words of `lights[i]`.
unfoldable pub write_light : Light → LedPins → LedPins
write_light light p =
    write_word light.red 16 (write_word light.green 16 (write_word light.blue 16 p))

-- `for (; i < i + n; i++)` over the rows of `lights`, with the rounds that are left.
unfoldable pub write_lights : ℕ → ℕ → List Light → LedPins → LedPins
write_lights zero i lights p = p
write_lights (suc n) i lights p =
    write_lights n (i + 1) lights (write_light (get_or lights i dark) p)

abbrev tlc_write : ℕ
tlc_write = 0x25

abbrev tlc_config : ℕ
tlc_config = bit_or 0x04 0x02

-- One chip's command, configuration, brightness and colours, from row `i` on.
unfoldable pub write_chip : WhiteBalance → ℕ → List Light → LedPins → LedPins
write_chip wb i lights p = write_lights 4 i lights (
    write_word wb.red 7 (
      write_word wb.green 7
        (write_word wb.blue 7 (write_word tlc_config 5 (write_word tlc_write 6 p)))))

unfoldable pub led : WhiteBalance → List Light → LedPins → LedPins
led wb lights p = write_chip wb 4 lights (write_chip wb 0 lights p)
