-- ===== src/Tests/Device.antt =====
-- A clock chip of 32 registers and more, a bus that nobody answers on, and a firmware at rest.
use iss_notify_firmware.Common.{ℕ, ◌+◌, true, List, [], ◌∷◌, Bytes, replicate, refl, arith}
use iss_notify_firmware.Led.{LedPins, WhiteBalance, dark}
use iss_notify_firmware.Led.Wire.{IsIdle}
use iss_notify_firmware.Twi.{Twi}
use iss_notify_firmware.Rtc.{Rtc}
use iss_notify_firmware.Rtc.Chip.{RegisterChip, IsReady, stored}
use iss_notify_firmware.Firmware.{Firmware, Pass, Eeprom}
use iss_notify_firmware.Commands.Invariant.{IsWellFormed}

-- The registers and the address pointer.
pub record Chip : Type 0 where
  pub cells : ℕ → ℕ
  pub address : ℕ

abbrev write_cells : Chip → List ℕ → Chip
write_cells b [] = b
write_cells b (a ∷ ds) = record { cells = stored b.cells a ds; address = a }

abbrev chip_write : Chip → ℕ → List ℕ → ℕ → ℕ × Chip
chip_write b device bytes wait = (0, write_cells b bytes)

abbrev chip_read : Chip → ℕ → ℕ → List ℕ × Chip
chip_read b device n = (b.cells b.address ∷ [], record b { address = b.address + 1 })

abbrev pub chip_bus : Twi Chip
chip_bus = record { write_to = chip_write; read_from = chip_read }

abbrev pub chip : RegisterChip chip_bus
chip = record {
  registers = λ b. b.cells;
  pointer = λ b. b.address;
  write_status = λ b bytes wait. refl;
  write_pointer = λ b a wait. refl;
  write_registers = λ b a wait ds. refl;
  read_byte = λ b. refl;
  read_registers = λ b. refl;
}

-- A bus on which every write is refused.
abbrev pub mute_bus : Twi Unit
mute_bus = record { write_to = λ b device bytes wait. (2, b); read_from = λ b device n. ([], b) }

abbrev pub pins : LedPins
pins = record { portf = 0xf0; ddrf = 0x03; trail = [] }

abbrev pub clock_over : {B : Type 0} → B → Rtc B
clock_over b = record {
  rtc_state = 0;
  tx_buffer = replicate 8 0;
  rx_buffer = replicate 8 0;
  bus = b;
}

abbrev pub clock : Rtc Chip
clock = clock_over (record { cells = λ a. a; address = 0 })

pub clock-IsReady : IsReady clock
clock-IsReady = record { tx_length = refl; rx_length = refl }

abbrev pub some_passes : List Pass
some_passes =
    record { time = 1336000000; duration = 587 } ∷ record { time = 4294967295; duration = 0 } ∷ []

abbrev pub balance : WhiteBalance
balance = record { blue = 100; green = 90; red = 80 }

abbrev stored_setup : Eeprom
stored_setup = record {
  color = 7;
  wb = balance;
  num_passes = 255;
  passes = replicate 10 (record { time = 5; duration = 6 });
}

-- The firmware with a text of the host to be read.
abbrev pub device : Bytes → Firmware Chip
device text = record {
  input = text;
  output = [];
  reset_alarm = 0;
  alarm = 0;
  pass = 0;
  ms = 100;
  do_rainbow = true;
  previous_millis = 4294967290;
  bow_rotate = 7;
  show = replicate 8 dark;
  wb = balance;
  eeprom = stored_setup;
  stack = replicate 10 (record { time = 1; duration = 2 });
  eimsk = 8;
  leds = pins;
  rtc = clock;
}

pub pins-IsIdle : IsIdle pins
pins-IsIdle = record { byte = omega arith; clock_low = refl }

pub device-IsWellFormed : (text : Bytes) → IsWellFormed (device text)
device-IsWellFormed text = record {
  lights = refl;
  idle = pins-IsIdle;
  wheel = omega arith;
  slots = refl;
  array = refl;
  clock = clock-IsReady;
  now = omega arith;
  turned = omega arith;
}
