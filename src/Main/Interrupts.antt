-- ===== src/Main/Interrupts.antt =====
-- The alarm's interrupt: its flag, its mask bit, and the chip.
use iss_notify_firmware.Common.{
  ℕ, Option, none, some, ◌≡◌, refl, subst, arith, bit, set_bit, clear_bit, ◌>>=◌,
}
use iss_notify_firmware.Common.Bits.{bit-set_bit, bit-clear_bit}
use iss_notify_firmware.Twi.{Twi}
use iss_notify_firmware.Rtc.Chip.{RegisterChip, IsReady, registers_of, update}
use iss_notify_firmware.Rtc.Alarm.{clear_alarm0_lem}
use iss_notify_firmware.Firmware.{Firmware, led_show}
use iss_notify_firmware.Main.{int3_bit, listen, handle_alarm, handle_reset, iteration, int3_isr}
use iss_notify_firmware.Main.Rainbow.{rainbow_step}

pub set_bit-three : (x : ℕ) → bit (set_bit x 3) 3 ≡ 1
set_bit-three x = bit-set_bit x 3 3 (omega arith) (omega arith)

pub clear_bit-three : (x : ℕ) → bit (clear_bit x 3) 3 ≡ 0
clear_bit-three x = bit-clear_bit x 3 3 (omega arith) (omega arith)

-- A computation that, if it gives a state, gives one with INT3 enabled and `reset_alarm` at 0.
abbrev Enables : {B : Type 0} → Option (Firmware B) → Type 0
Enables none = Unit
Enables (some fw) = (bit fw.eimsk int3_bit ≡ 1) × (fw.reset_alarm ≡ 0)

Enables-bind :
    {A B : Type 0} (m : Option A) (f : A → Option (Firmware B))
    → ((a : A) → Enables (f a))
    → Enables (m >>= f)
Enables-bind none f h = tt
Enables-bind (some a) f h = h a

module _ {B : Type 0} (twi : Twi B) where
  handle_reset-Enables : (fw : Firmware B) → Enables (some (handle_reset twi fw))
  unfolding handle_reset
  handle_reset-Enables fw = (set_bit-three fw.eimsk, refl)

  iteration-Enables : (fw : Firmware B) → Enables (iteration twi fw)
  unfolding iteration
  iteration-Enables fw =
      Enables-bind (listen twi fw) _ λ a.
        Enables-bind (rainbow_step (handle_alarm twi a)) _ λ b. handle_reset-Enables (led_show b)

  iteration-enables :
      (fw fw' : Firmware B)
      → iteration twi fw ≡ some fw'
      → (bit fw'.eimsk int3_bit ≡ 1) × (fw'.reset_alarm ≡ 0)
  iteration-enables fw fw' e = subst Enables e (iteration-Enables fw)

module _ {B : Type 0} (twi : Twi B) (chip : RegisterChip twi) where
  handle_alarm-int3_isr :
      (fw : Firmware B)
      → IsReady fw.rtc
      → let served = int3_isr fw in
        let fw' = handle_alarm twi served in
        (bit served.eimsk int3_bit ≡ 0)
        × (registers_of twi chip fw'.rtc
            ≡ update (update (registers_of twi chip fw.rtc) 0x0d 0) 7 0x80)
        × (fw'.pass ≡ 1)
        × (bit fw'.eimsk int3_bit ≡ 1)
        × (fw'.alarm ≡ 0)
  unfolding int3_isr handle_alarm
  handle_alarm-int3_isr fw ready = (
    clear_bit-three fw.eimsk,
    clear_alarm0_lem twi chip fw.rtc ready,
    refl,
    set_bit-three (clear_bit fw.eimsk int3_bit),
    refl,
  )
