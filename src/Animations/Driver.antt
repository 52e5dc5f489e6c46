-- ===== src/Animations/Driver.antt =====
-- Test/animations/hardware: led.c and led.h. The port, SIN_HIGH, SIN_LOW, SCLK_HIGH and SCLK_LOW
-- are those of the firmware's driver, and so is the body of the loop of `shift_out`.
use iss_notify_firmware.Common.{
  ℕ, ◌+◌, ◌-◌, ◌/◌, ◌^◌, List, [], ◌∷◌, ◌==◌, if◌then◌else◌, get_or, set, set_bit, clear_bit,
  bit_and, bit_or, replicate,
}
use iss_notify_firmware.Led.{LedPins, put, sin_low, sclk_high, sclk_low, shift_bits}

-- Bits of registers, by the names of the device's header file.
pub record TimerBits : Type 0 where
  pub ocie1a : ℕ
  pub cs12 : ℕ
  pub wgm12 : ℕ

-- The pins, the timer's registers, and the variables `level` and `color_data`.
pub record Driver : Type 0 where
  pub pins : LedPins
  pub timsk1 : ℕ
  pub tccr1b : ℕ
  pub ocr1a : ℕ
  pub level : ℕ
  pub color_data : List (List ℕ)

unfoldable pub blank_high : LedPins → LedPins
blank_high p = put (set_bit p.portf 5) p

unfoldable pub blank_low : LedPins → LedPins
blank_low p = put (clear_bit p.portf 5) p

unfoldable pub latch_high : LedPins → LedPins
latch_high p = put (set_bit p.portf 4) p

unfoldable pub latch_low : LedPins → LedPins
latch_low p = put (clear_bit p.portf 4) p

-- `LATCH_HIGH; LATCH_LOW;`
unfoldable pub latch : LedPins → LedPins
latch p = latch_low (latch_high p)

-- `SCLK_HIGH; SCLK_LOW;`
unfoldable pub pulse : LedPins → LedPins
pulse p = sclk_low (sclk_high p)

unfoldable pub shift_out : ℕ → LedPins → LedPins
shift_out word p = latch (shift_bits word 13 (pulse (pulse (pulse (sin_low (latch p))))))

-- `color_data[j][k]`
abbrev pub plane : List (List ℕ) → ℕ → ℕ → ℕ
plane planes j k = get_or (get_or planes j []) k 0

-- The three calls of `shift_out`, each with the present level.
unfoldable pub shift_level : Driver → LedPins → LedPins
shift_level d p =
    shift_out (plane d.color_data 0 d.level)
      (shift_out (plane d.color_data 1 d.level) (shift_out (plane d.color_data 2 d.level) p))

-- The branches of the interrupt routine: the time and the level that follow.
unfoldable pub next_level : Driver → Driver
next_level d =
    if d.level == 3
    then record d { pins = shift_level d d.pins; ocr1a = 50; level = d.level - 1 }
    else if d.level == 2
    then record d { pins = shift_level d d.pins; ocr1a = 25; level = d.level - 1 }
    else if d.level == 1
    then record d { pins = shift_level d d.pins; ocr1a = 15; level = d.level - 1 }
    else if d.level == 0
    then record d { pins = shift_level d d.pins; ocr1a = 8; level = 3 }
    else d

-- `TIMER1_COMPA_vect`
unfoldable pub timer1_isr : Driver → Driver
timer1_isr d =
    let d' = next_level (record d { pins = blank_high d.pins }) in
    record d' { pins = blank_low d'.pins }

-- `LED_INIT; SIN_LOW; SCLK_LOW; LATCH_LOW; BLANK_LOW;`
unfoldable pub init_pins : LedPins → LedPins
init_pins p = blank_low (latch_low (sclk_low (sin_low (record p { ddrf = bit_or p.ddrf 0x33 }))))

unfoldable pub led_init : TimerBits → Driver → Driver
led_init bits d = record d {
  pins = init_pins d.pins;
  level = 0;
  timsk1 = 2 ^ bits.ocie1a;
  tccr1b = bit_or d.tccr1b (bit_or (2 ^ bits.cs12) (2 ^ bits.wgm12));
  ocr1a = 1;
}

-- `color_data[j][k] |= 1 << i` in one row of the array.
abbrev mark : ℕ → ℕ → List ℕ → List ℕ
mark i k row = set row k (set_bit (get_or row k 0) i)

-- The `switch` on a brightness.
unfoldable pub mark_levels : ℕ → ℕ → List ℕ → List ℕ
mark_levels value i row =
    if value == 1
    then mark i 0 row
    else if value == 2
    then mark i 1 row
    else if value == 3
    then mark i 2 row
    else if value == 4
    then mark i 1 (mark i 2 row)
    else if value == 5
    then mark i 3 row
    else if value == 6
    then mark i 1 (mark i 3 row)
    else if value == 7
    then mark i 1 (mark i 2 (mark i 3 row))
    else if value == 8
    then mark i 0 (mark i 1 (mark i 2 (mark i 3 row)))
    else row

-- `red[i]`, `green[i]` and `blue[i]`.
abbrev pub red_part : ℕ → ℕ
red_part color = bit_and color 0x00F

abbrev pub green_part : ℕ → ℕ
green_part color = bit_and color 0x0F0 / 2 ^ 4

abbrev pub blue_part : ℕ → ℕ
blue_part color = bit_and color 0xF00 / 2 ^ 8

-- The inner loop over the LEDs, from number `i` on, for one of the three colours.
unfoldable pub mark_all : (ℕ → ℕ) → ℕ → List ℕ → List ℕ → List ℕ
mark_all part i [] row = row
mark_all part i (color ∷ colors) row = mark_all part (i + 1) colors (mark_levels (part color) i row)

-- `color` has 12 elements.
unfoldable pub set_data : List ℕ → Driver → Driver
set_data colors d = record d {
  color_data =
      mark_all red_part 0 colors (replicate 4 0)
      ∷ mark_all green_part 0 colors (replicate 4 0)
      ∷ mark_all blue_part 0 colors (replicate 4 0)
      ∷ [];
}
