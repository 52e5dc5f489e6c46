-- ===== src/Board.antt =====
-- hardware/charge.c, hardware/analog.c and the register writes of `RTC_Init`: the board's ports, the
-- converter, the battery and the charger. The converter is a parameter over an abstract state `H`.
pub mod Battery
pub mod Charger
pub mod Pins
use iss_notify_firmware.Common.{
  ℕ, zero, suc, ◌+◌, ◌-◌, ◌*◌, ◌/◌, ◌%◌, ◌^◌, Bool, true, false, Option, none, some, ◌==◌, ltb, leb,
  if◌then◌else◌, ◌>>=◌, bit_and, bit_or, set_bit, clear_bit, u8, u16,
}

-- The ports' direction, output and input registers, and EICRA.
pub record Ports : Type 0 where
  pub ddrb : ℕ
  pub portb : ℕ
  pub pinb : ℕ
  pub ddrc : ℕ
  pub portc : ℕ
  pub pinc : ℕ
  pub ddrd : ℕ
  pub portd : ℕ
  pub pind : ℕ
  pub eicra : ℕ

-- Bit numbers of the converter's registers, from the device's header file.
pub record AdcBits : Type 0 where
  pub aden : ℕ
  pub adps2 : ℕ
  pub adps0 : ℕ
  pub adhsm : ℕ
  pub adsc : ℕ

-- The registers of the converter, as the code accesses them.
pub record Adc (H : Type 0) : Type 0 where
  pub write_adcsra : H → ℕ → H
  pub write_adcsrb : H → ℕ → H
  pub write_admux : H → ℕ → H
  pub read_adcsra : H → ℕ × H
  pub read_adcl : H → ℕ × H
  pub read_adch : H → ℕ × H

-- The ports, the static variable `aref`, and the converter.
pub record Board (H : Type 0) : Type 0 where
  pub ports : Ports
  pub aref : ℕ
  pub adc : H

-- `CHARGE_STATUS`, whose NONE is `idle`.
pub data ChargeStatus : Type 0 where
  idle bulk_charge trickle_charge : ChargeStatus

abbrev stat1 : ℕ
stat1 = 2

abbrev stat2 : ℕ
stat2 = 7

abbrev pg : ℕ
pg = 6

abbrev max_bat_adc : ℕ
max_bat_adc = 390

abbrev min_bat_adc : ℕ
min_bat_adc = 280

abbrev pub bat_sense : ℕ
bat_sense = 0x25

unfoldable pub charge_init : Ports → Ports
charge_init p = record p {
  ddrd = clear_bit p.ddrd stat1;
  portd = set_bit p.portd stat1;
  ddrb = bit_or (clear_bit p.ddrb stat2) 0x01;
  portb = set_bit p.portb stat2;
  ddrc = clear_bit p.ddrc pg;
  portc = set_bit p.portc pg;
}

-- `STAT1_READ == 0` sets `stat1` to 1, and so on.
unfoldable pub get_charge_status : Ports → ChargeStatus
get_charge_status p =
    let low1 = if bit_and p.pind (2 ^ stat1) == 0 then 1 else 0 in
    let low2 = if bit_and p.pinb (2 ^ stat2) == 0 then 1 else 0 in
    if ltb 0 (bit_and low1 low2)
    then idle
    else if ltb 0 low1
    then bulk_charge
    else if ltb 0 low2
    then trickle_charge
    else idle

unfoldable get_power_status : Ports → ℕ
get_power_status p = bit_and p.pinc (2 ^ pg)

-- The part of `get_battery_voltage` from the test on: the value that is returned, and the ports.
unfoldable pub scale_voltage : ℕ → Ports → ℕ × Ports
scale_voltage val p =
    if leb min_bat_adc val
    then (let scaled = u16 (u16 (val - min_bat_adc) * 11) / (max_bat_adc - min_bat_adc) in
        (u8 (if ltb 11 scaled then 11 else scaled), record p { portb = clear_bit p.portb 0 }))
    else (0, p)

-- The ports of `RTC_Init`; `isc30` and `isc31` are bit numbers of EICRA. The interrupt mask and the
-- bus are elsewhere.
unfoldable pub rtc_ports : ℕ → ℕ → Ports → Ports
rtc_ports isc30 isc31 p = record p {
  ddrd = clear_bit p.ddrd 3;
  portd = set_bit p.portd 3;
  eicra = bit_and p.eicra (bit_or (2 ^ 16 - 1 - 2 ^ isc30) (2 ^ 16 - 1 - 2 ^ isc31));
}

module _ {H : Type 0} where
  unfoldable analog_reference : ℕ → Board H → Board H
  analog_reference mode b = record b { aref = bit_and mode 0xc0 }

module _ {H : Type 0} (bits : AdcBits) (adc : Adc H) where
  abbrev adc_prescaler : ℕ
  adc_prescaler = bit_or (2 ^ bits.adps2) (2 ^ bits.adps0)

  -- `while (ADCSRA & (1<<ADSC)) ;`, where `none` is a loop of more rounds than the fuel.
  unfoldable pub wait_adc : ℕ → H → Option H
  wait_adc zero h = none
  wait_adc (suc fuel) h =
      let (v, h') = adc.read_adcsra h in
      let rest = wait_adc fuel h' in if bit_and v (2 ^ bits.adsc) == 0 then some h' else rest

  -- The four writes that start a conversion.
  unfoldable pub start_adc : ℕ → ℕ → H → H
  start_adc aref mux h =
      let h₁ = adc.write_adcsra h (bit_or (2 ^ bits.aden) adc_prescaler) in
      let h₂ = adc.write_adcsrb h₁ (bit_or (2 ^ bits.adhsm) (bit_and mux 0x20)) in
      let h₃ = adc.write_admux h₂ (bit_or aref (bit_and mux 0x1f)) in
      adc.write_adcsra h₃ (bit_or (bit_or (2 ^ bits.aden) adc_prescaler) (2 ^ bits.adsc))

  -- The result is the bit pattern of the `int16_t`.
  unfoldable pub read_result : H → ℕ × H
  read_result h =
      let (low, h₁) = adc.read_adcl h in
      let (high, h₂) = adc.read_adch h₁ in (bit_or (u16 (high * 256)) low, h₂)

  unfoldable pub adc_read : ℕ → ℕ → Board H → Option (ℕ × Board H)
  adc_read fuel mux b = wait_adc fuel (start_adc b.aref mux b.adc) >>= λ h.
      (let (v, h') = read_result h in some (v, record b { adc = h' }))

  unfoldable pub get_battery_voltage : ℕ → Board H → Option (ℕ × Board H)
  get_battery_voltage fuel b =
      let on = record b { ports = record b.ports { portb = set_bit b.ports.portb 0 } } in
      adc_read fuel bat_sense on >>= λ (val, b').
      (let (level, ports) = scale_voltage val b'.ports in some (level, record b' { ports = ports }))
