-- ===== src/Tests/Hardware.antt =====
-- Runs of the set-up, the battery and the charger.
use iss_notify_firmware.Common.{
  ℕ, zero, suc, ◌+◌, ◌*◌, ◌-◌, ◌/◌, ◌≡◌, [], refl, arith, bit, if◌then◌else◌, leb, min, some,
}
use iss_notify_firmware.Firmware.{Firmware}
use iss_notify_firmware.Board.{
  Ports, AdcBits, Adc, Board, rtc_ports, start_adc, get_battery_voltage, bat_sense,
}
use iss_notify_firmware.Board.Battery.{Finishes, get_battery_voltage_lem}
use iss_notify_firmware.Commands.Invariant.{IsWellFormed}
use iss_notify_firmware.Main.{int3_bit, int3_isr}
use iss_notify_firmware.Main.Animation.{startup, int3, play, play-Performs}
use iss_notify_firmware.Board.Pins.{rtc_ports_lem}
use iss_notify_firmware.Main.Setup.{
  McuBits, Machine, setup_hardware, timer_setup, rtc_init, led_setup, mcu_setup,
}
use iss_notify_firmware.Main.Boot.{IsFresh, Heard, startup-setup_hardware}
use iss_notify_firmware.Tests.Device.{Chip, device, balance, clock-IsReady}

abbrev ports : Ports
ports = record {
  ddrb = 0x80;
  portb = 2;
  pinb = 0x80;
  ddrc = 0xff;
  portc = 0;
  pinc = 0x40;
  ddrd = 0x0c;
  portd = 1;
  pind = 0;
  eicra = 0x55;
}

abbrev adc_bits : AdcBits
adc_bits = record { aden = 7; adps2 = 2; adps0 = 0; adhsm = 7; adsc = 6 }

abbrev busy : ℕ → ℕ × ℕ
busy zero = (0x85, 0)
busy (suc n) = (0xc5, n)

-- A converter that is busy for two polls.
abbrev slow_adc : Adc ℕ
slow_adc = record {
  write_adcsra = λ h v. 2;
  write_adcsrb = λ h v. h;
  write_admux = λ h v. h;
  read_adcsra = busy;
  read_adcl = λ h. (100, h);
  read_adch = λ h. (1, h);
}

abbrev board : Board ℕ
board = record { ports = ports; aref = 0x40; adc = 0 }

conversion : Finishes adc_bits slow_adc 2 (start_adc adc_bits slow_adc 0x40 bat_sense 0) 0
unfolding start_adc
conversion = (omega arith, (omega arith, (refl, refl)))

get_battery_voltage_lem_example :
    (b' : Board ℕ) × (get_battery_voltage adc_bits slow_adc 5 board
      ≡ some (min 11 ((1 * 256 + 100 - 280) / 10), b'))
    × (bit b'.ports.portb 0 ≡ (if leb 280 (1 * 256 + 100) then 0 else 1))
get_battery_voltage_lem_example =
    get_battery_voltage_lem adc_bits slow_adc board 5 2 100 1 0 conversion (omega arith) refl refl
      (omega arith) (omega arith)

abbrev cold : Firmware Chip
cold = record (device []) { ms = 0; previous_millis = 0; bow_rotate = 0 }

abbrev machine : Machine Chip
machine = record {
  firmware = cold;
  ports = ports;
  mcu = record { clkpr = 3; mcucr = 0; mcusr = 8; ocr3al = 0; tccr3b = 0; timsk3 = 0 };
}

abbrev mcu_bits : McuBits
mcu_bits = record { jtd = 7; wdrf = 3; wgm32 = 3; cs30 = 0; ocie3a = 1; isc30 = 6; isc31 = 7 }

cold-IsFresh : IsFresh cold
cold-IsFresh = record {
  now = refl;
  turned = refl;
  quiet = refl;
  index = refl;
  colours = refl;
  slots = refl;
  array = refl;
  buffers = clock-IsReady;
  port = omega arith;
}

abbrev booted : Firmware Chip
booted = play (startup (λ a b. 0)) (int3_isr (setup_hardware (λ b. b) mcu_bits machine).firmware)

enabled : bit (setup_hardware (λ b. b) mcu_bits machine).firmware.eimsk int3_bit ≡ 1
unfolding setup_hardware timer_setup rtc_init led_setup mcu_setup
enabled = refl

startup-setup_hardware_example : IsWellFormed booted × (booted.wb ≡ balance) × Heard booted
startup-setup_hardware_example =
    startup-setup_hardware (λ b. b) mcu_bits (λ a b. 0) machine booted cold-IsFresh
      (int3 enabled (play-Performs (startup (λ a b. 0)) _))

rtc_ports_lem_example :
    ((rtc_ports 6 7 ports).eicra ≡ 0x55)
    × (bit (rtc_ports 6 7 ports).ddrd 2 ≡ 1)
    × (bit (rtc_ports 6 7 ports).portd 2 ≡ 0)
rtc_ports_lem_example =
    rtc_ports_lem ports 6 7 2 (omega arith) (omega arith) (omega arith) (omega arith) (omega arith)
