-- ===== src/Board/Battery.antt =====
-- The polled converter, and the battery's voltage on the scale from 0 to 11.
use iss_notify_firmware.Common.{
  ℕ, zero, suc, ◌+◌, ◌-◌, ◌*◌, ◌/◌, ◌%◌, ◌^◌, ◌<◌, min, some, true, ◌≡◌, ◌≢◌, refl, sym, ap, ◌∙◌,
  arith, ◌==◌, ==_iff, ne→==-false, leb, if◌then◌else◌, bit, bit_and, bit_or, u16, set_bit,
  clear_bit,
}
use iss_notify_firmware.Common.Bits.{all_below, all_below_sound, bit_or-low, bit_and-low}
use iss_notify_firmware.Board.{
  Ports, AdcBits, Adc, Board, bat_sense, wait_adc, start_adc, read_result, scale_voltage, adc_read,
  get_battery_voltage,
}

join_table : all_below 1024 (λ x. bit_or (u16 (x / 256 * 256)) (x % 256) == x) ≡ true
unfolding all_below
join_table = refl

-- The two halves of a ten-bit result.
join : (high low : ℕ) → high < 4 → low < 256 → bit_or (u16 (high * 256)) low ≡ high * 256 + low
join high low h l =
    let x = high * 256 + low in
    let top : x / 256 ≡ high = omega arith in
    let rest : x % 256 ≡ low = omega arith in
    ap (λ t. bit_or (u16 (t * 256)) low) (sym top)
    ∙ ap (bit_or (u16 (x / 256 * 256))) (sym rest)
    ∙ (==_iff _ _).0 (all_below_sound 1024 _ x join_table (omega arith))

set_bit-zero : (x : ℕ) → bit (set_bit x 0) 0 ≡ 1
set_bit-zero x = omega (arith, bit_or-low x 1)

clear_bit-zero : (x : ℕ) → bit (clear_bit x 0) 0 ≡ 0
clear_bit-zero x = omega (arith, bit_and-low x 65534)

-- The value on the scale, and whether the measurement pin is off again.
scale_voltage_lem :
    (val : ℕ) (p : Ports)
    → val < 1024
    → bit p.portb 0 ≡ 1
    → let (level, p') = scale_voltage val p in
      (level ≡ min 11 ((val - 280) / 10)) × (bit p'.portb 0 ≡ (if leb 280 val then 0 else 1))
unfolding scale_voltage
scale_voltage_lem val p small on = ground (arith, clear_bit-zero p.portb)

module _ {H : Type 0} (bits : AdcBits) (adc : Adc H) where
  -- The converter shows itself busy `n` times, and then done.
  abbrev pub Finishes : ℕ → H → H → Type 0
  Finishes zero h h' =
      (bit_and (adc.read_adcsra h).0 (2 ^ bits.adsc) ≡ 0) × ((adc.read_adcsra h).1 ≡ h')
  Finishes (suc n) h h' =
      (bit_and (adc.read_adcsra h).0 (2 ^ bits.adsc) ≢ 0) × Finishes n (adc.read_adcsra h).1 h'

  wait_adc-Finishes :
      (n fuel : ℕ) (h h' : H) → n < fuel → Finishes n h h' → wait_adc bits adc fuel h ≡ some h'
  unfolding wait_adc
  wait_adc-Finishes n zero h h' more f = absurd (omega arith)
  wait_adc-Finishes zero (suc fuel) h h' more f = rw f.0 (ap some f.1)
  wait_adc-Finishes (suc n) (suc fuel) h h' more f =
      rw (ne→==-false _ 0 f.0) (wait_adc-Finishes n fuel _ h' (omega arith) f.1)

  -- If the converter shows itself done within the fuel and then holds a ten-bit result,
  -- `get_battery_voltage` ends and returns a tenth of what the result is above 280, at most 11 and
  -- 0 below; the measurement pin is off again if the result is at least 280, and is left on
  -- otherwise.
  pub get_battery_voltage_lem :
      (b : Board H) (fuel polls low high : ℕ) (h : H)
      → Finishes polls (start_adc bits adc b.aref bat_sense b.adc) h
      → polls < fuel
      → (adc.read_adcl h).0 ≡ low
      → (adc.read_adch (adc.read_adcl h).1).0 ≡ high
      → low < 256
      → high < 4
      → (b' : Board H) × (get_battery_voltage bits adc fuel b
          ≡ some (min 11 ((high * 256 + low - 280) / 10), b'))
        × (bit b'.ports.portb 0 ≡ (if leb 280 (high * 256 + low) then 0 else 1))
  unfolding get_battery_voltage adc_read read_result
  get_battery_voltage_lem b fuel polls low high h f enough l u lb hb =
      let ports = record b.ports { portb = set_bit b.ports.portb 0 } in
      let scaled =
        scale_voltage_lem (high * 256 + low) ports (omega arith) (set_bit-zero b.ports.portb) in
      let after = record b {
        ports = (scale_voltage (high * 256 + low) ports).1;
        adc = (adc.read_adch (adc.read_adcl h).1).1;
      } in
      (
        after,
        rw (wait_adc-Finishes polls fuel _ h enough f, l, u, join high low hb lb)
            (ap (λ x. some (x, after)) scaled.0),
        scaled.1,
      )
