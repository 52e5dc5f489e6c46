-- ===== src/Main/Boot.antt =====
-- From power-on to the main loop: the set-up of the hardware and the start-up animation.
use iss_notify_firmware.Common.{
  ℕ, ◌+◌, ◌<◌, length, replicate, ◌≡◌, refl, ap, ◌∙◌, arith, bit, clear_bit, u32, List, ◌⊎◌, inl,
  inr, subst, ◌^◌,
}
use iss_notify_firmware.Common.Bits.{bit-set_bit, bit-clear_bit}
use iss_notify_firmware.Led.{LedPins, WhiteBalance, dark, put, sin_low, sclk_low, led_init}
use iss_notify_firmware.Led.Wire.{IsIdle, clear_one, clear_zero}
use iss_notify_firmware.Rtc.Chip.{IsReady}
use iss_notify_firmware.Firmware.{Firmware, max_pass, led_show}
use iss_notify_firmware.Commands.Invariant.{IsWellFormed, painted, led_show-IsWellFormed}
use iss_notify_firmware.Main.{int3_bit, int3_isr, timer3_isr}
use iss_notify_firmware.Main.Animation.{
  Stroke, painting, showing, perform, startup, Performs, ended, stroke, int3, timer3,
}
use iss_notify_firmware.Main.Setup.{
  McuBits, Machine, rtc_init, led_setup, mcu_setup, timer_setup, setup_hardware,
}

-- The state at power-on: the initial values of the variables, the EEPROM and the port as found.
pub record IsFresh {B : Type 0} (fw : Firmware B) : Type 0 where
  pub now : fw.ms ≡ 0
  pub turned : fw.previous_millis ≡ 0
  pub quiet : fw.alarm ≡ 0
  pub index : fw.bow_rotate ≡ 0
  pub colours : fw.show ≡ replicate 8 dark
  pub slots : length fw.eeprom.passes ≡ max_pass
  pub array : length fw.stack ≡ max_pass
  pub buffers : IsReady fw.rtc
  pub port : fw.leds.portf < 256

led_init-IsIdle : (p : LedPins) → p.portf < 256 → IsIdle (led_init p)
unfolding led_init sin_low sclk_low put
led_init-IsIdle p h =
    let low = clear_one p.portf h in
    let off = clear_zero (clear_bit p.portf 1) (omega arith) in
    record { byte = omega arith; clock_low = omega arith }

module _ {B : Type 0} where
  -- INT3 is enabled, or it has come once and has masked itself.
  abbrev pub Heard : Firmware B → Type 0
  Heard fw =
      ((bit fw.eimsk int3_bit ≡ 1) × (fw.alarm ≡ 0))
      ⊎ ((bit fw.eimsk int3_bit ≡ 0) × (fw.alarm ≡ 1))

  -- What the animation keeps.
  record Ready (wb : WhiteBalance) (fw : Firmware B) : Type 0 where
    form : IsWellFormed fw
    balance : fw.wb ≡ wb
    heard : Heard fw

  perform-Ready :
      (f : Stroke) {wb : WhiteBalance} {fw : Firmware B} → Ready wb fw → Ready wb (perform f fw)
  unfolding perform led_show
  perform-Ready (painting v) h = record {
    form = painted (record { blue = v; green = v; red = v }) (h.form);
    balance = h.balance;
    heard = h.heard;
  }
  perform-Ready showing h = record {
    form = unfold led_show in led_show-IsWellFormed (h.form);
    balance = h.balance;
    heard = h.heard;
  }

  int3_isr-Ready :
      {wb : WhiteBalance} {fw : Firmware B}
      → bit fw.eimsk int3_bit ≡ 1
      → Ready wb fw
      → Ready wb (int3_isr fw)
  unfolding int3_isr
  int3_isr-Ready {fw = fw} on h = record {
    form = let w = h.form in assumption w;
    balance = h.balance;
    heard = inr (bit-clear_bit fw.eimsk 3 3 (omega arith) (omega arith), refl);
  }

  timer3_isr-Ready : {wb : WhiteBalance} {fw : Firmware B} → Ready wb fw → Ready wb (timer3_isr fw)
  unfolding timer3_isr
  timer3_isr-Ready {fw = fw} h = record {
    form =
        let w = h.form in let now : u32 (fw.ms + 1) < 2 ^ 32 = omega arith in assumption (w, now);
    balance = h.balance;
    heard = h.heard;
  }

  Performs-Ready :
      {wb : WhiteBalance} {fw' fw : Firmware B} {fs : List Stroke}
      → Performs fw' fs fw
      → Ready wb fw
      → Ready wb fw'
  Performs-Ready {wb} (ended e) h = subst (Ready wb) e h
  Performs-Ready (stroke {f = f} p) h = Performs-Ready p (perform-Ready f h)
  Performs-Ready (int3 on p) h = Performs-Ready p (int3_isr-Ready on h)
  Performs-Ready (timer3 p) h = Performs-Ready p (timer3_isr-Ready h)

module _ {B : Type 0} (twi_init : B → B) (bits : McuBits) where
  setup_hardware-IsWellFormed :
      (m : Machine B) → IsFresh m.firmware → IsWellFormed (setup_hardware twi_init bits m).firmware
  unfolding setup_hardware timer_setup rtc_init led_setup mcu_setup
  setup_hardware-IsWellFormed m h = record {
    lights = ap length h.colours;
    idle = led_init-IsIdle m.firmware.leds h.port;
    wheel = omega (arith, h.index);
    slots = h.slots;
    array = h.array;
    clock = record { tx_length = h.buffers.tx_length; rx_length = h.buffers.rx_length };
    now = omega (arith, h.now);
    turned = omega (arith, h.turned);
  }

  setup_hardware-mask :
      (m : Machine B) → bit (setup_hardware twi_init bits m).firmware.eimsk int3_bit ≡ 1
  unfolding setup_hardware timer_setup rtc_init led_setup mcu_setup
  setup_hardware-mask m = bit-set_bit m.firmware.eimsk 3 3 (omega arith) (omega arith)

  setup_hardware-balance :
      (m : Machine B) → (setup_hardware twi_init bits m).firmware.wb ≡ m.firmware.eeprom.wb
  unfolding setup_hardware timer_setup rtc_init led_setup mcu_setup
  setup_hardware-balance m = refl

  setup_hardware-alarm :
      (m : Machine B) → (setup_hardware twi_init bits m).firmware.alarm ≡ m.firmware.alarm
  unfolding setup_hardware timer_setup rtc_init led_setup mcu_setup
  setup_hardware-alarm m = refl

  -- From the power-on state (the variables at their initial values, arrays and buffers of their
  -- lengths, port F a byte, anything in the EEPROM and the other registers), the set-up of the
  -- hardware and the start-up animation, however INT3 and the timer come between its statements,
  -- reach a well-formed state with the white balance of the EEPROM, in which INT3 is enabled and
  -- no alarm is noted, or INT3 has masked itself and its alarm is noted.
  pub startup-setup_hardware :
      (overflow : ℕ → ℕ → ℕ) (m : Machine B) (fw : Firmware B)
      → IsFresh m.firmware
      → Performs fw (startup overflow) (setup_hardware twi_init bits m).firmware
      → IsWellFormed fw × (fw.wb ≡ m.firmware.eeprom.wb) × Heard fw
  startup-setup_hardware overflow m fw fresh run =
      let ready : Ready m.firmware.eeprom.wb (setup_hardware twi_init bits m).firmware = record {
        form = setup_hardware-IsWellFormed m fresh;
        balance = setup_hardware-balance m;
        heard = inl (setup_hardware-mask m, setup_hardware-alarm m ∙ fresh.quiet);
      } in
      let done = Performs-Ready run ready in (done.form, done.balance, done.heard)
