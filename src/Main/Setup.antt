-- ===== src/Main/Setup.antt =====
-- `Setup_Hardware` of ISS-Notify.c and `RTC_Init` of hardware/rtc.c. The libraries' `wdt_disable`,
-- `USB_Init` and interrupt switches have no state here; `twi_init` acts on the bus.
use iss_notify_firmware.Common.{ℕ, ◌*◌, ◌^◌, bit_or, set_bit, clear_bit}
use iss_notify_firmware.Led.{led_init}
use iss_notify_firmware.Firmware.{Firmware}
use iss_notify_firmware.Board.{Ports, rtc_ports, charge_init}
use iss_notify_firmware.Main.{int3_bit}

-- The other registers of the controller that the code writes.
pub record Mcu : Type 0 where
  pub clkpr : ℕ
  pub mcucr : ℕ
  pub mcusr : ℕ
  pub ocr3al : ℕ
  pub tccr3b : ℕ
  pub timsk3 : ℕ

-- Bit numbers from the device's header file.
pub record McuBits : Type 0 where
  pub jtd : ℕ
  pub wdrf : ℕ
  pub wgm32 : ℕ
  pub cs30 : ℕ
  pub ocie3a : ℕ
  pub isc30 : ℕ
  pub isc31 : ℕ

pub record Machine (B : Type 0) : Type 0 where
  pub firmware : Firmware B
  pub ports : Ports
  pub mcu : Mcu

module _ {B : Type 0} (twi_init : B → B) (bits : McuBits) where
  unfoldable pub rtc_init : Machine B → Machine B
  rtc_init m =
      let fw = m.firmware in
      record m {
        firmware = record fw {
          rtc = record fw.rtc { bus = twi_init fw.rtc.bus };
          eimsk = set_bit fw.eimsk int3_bit;
        };
        ports = rtc_ports bits.isc30 bits.isc31 m.ports;
      }

  -- `LED_Init()` and the white balance from the EEPROM.
  unfoldable pub led_setup : Machine B → Machine B
  led_setup m =
      let fw = m.firmware in
      record m { firmware = record fw { leds = led_init fw.leds; wb = fw.eeprom.wb } }

  -- The clock prescaler, the JTAG pins and the watchdog flag.
  unfoldable pub mcu_setup : Machine B → Machine B
  mcu_setup m = record m {
    mcu = record m.mcu { clkpr = 0; mcucr = 2 ^ bits.jtd; mcusr = clear_bit m.mcu.mcusr bits.wdrf };
  }

  -- The millisecond timer.
  unfoldable pub timer_setup : Machine B → Machine B
  timer_setup m = record m {
    mcu = record m.mcu {
      ocr3al = 8;
      tccr3b = bit_or (2 ^ bits.wgm32) (5 * 2 ^ bits.cs30);
      timsk3 = 2 ^ bits.ocie3a;
    };
  }

  unfoldable pub setup_hardware : Machine B → Machine B
  setup_hardware m =
      let clock = rtc_init (led_setup (mcu_setup m)) in
      timer_setup (record clock { ports = charge_init clock.ports })
