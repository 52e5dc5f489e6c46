-- ===== src/Main/Animation.antt =====
-- ISS-Notify.c: the start-up animation, between `sei()` and the main loop, and the interrupts that
-- may come between two of its statements.
use iss_notify_firmware.Common.{
  ℕ, zero, suc, ◌+◌, ◌*◌, ◌^◌, List, [], ◌∷◌, ◌++◌, ltb, if◌then◌else◌, u16, bit, ◌≡◌, refl,
}
use iss_notify_firmware.Firmware.{Firmware, led_show}
use iss_notify_firmware.Commands.Settings.{paint}
use iss_notify_firmware.Main.{int3_bit, int3_isr, timer3_isr}

-- The loop over the eight lights, which gives all three colours one brightness, and `led(show)`.
pub data Stroke : Type 0 where
  painting : ℕ → Stroke
  showing : Stroke

unfoldable pub perform : {B : Type 0} → Stroke → Firmware B → Firmware B
perform (painting v) fw = record fw {
  show = paint 8 0 (record { blue = v; green = v; red = v }) fw.show;
}
perform showing fw = led_show fw

-- The product of two `int`s that are not negative. An `int` has 16 bits; `overflow` is what the
-- compiled program has for a product that is above the largest one, where the language promises
-- nothing.
unfoldable pub int_mul : (ℕ → ℕ → ℕ) → ℕ → ℕ → ℕ
int_mul overflow a b = if ltb (a * b) (2 ^ 15) then a * b else overflow a b

module _ (overflow : ℕ → ℕ → ℕ) where
  unfoldable pub startup_frame : ℕ → List Stroke
  startup_frame i = painting (u16 (int_mul overflow i 655)) ∷ showing ∷ []

  -- `for (i = 0; i < 100; i++)` and `for (i = 100; i > 1; i--)`, with the rounds left.
  unfoldable pub fade_in : ℕ → ℕ → List Stroke
  fade_in zero i = []
  fade_in (suc n) i = startup_frame i ++ fade_in n (i + 1)

  unfoldable pub fade_out : ℕ → List Stroke
  fade_out zero = []
  fade_out (suc n) = startup_frame (suc (suc n)) ++ fade_out n

  -- The statements of the animation, in order.
  unfoldable pub startup : List Stroke
  startup = fade_in 100 0 ++ (fade_out 99 ++ (painting 0 ∷ showing ∷ []))

-- Statements performed one after the other, from a state to the last one. In front of each and
-- behind the last an interrupt may be served: `sei()` has been called.
pub data Performs {B : Type 0} (last : Firmware B) : List Stroke → Firmware B → Type 0 where
  ended : {fw : Firmware B} → fw ≡ last → Performs last [] fw
  stroke :
      {f : Stroke} {fs : List Stroke} {fw : Firmware B}
      → Performs last fs (perform f fw)
      → Performs last (f ∷ fs) fw
  -- EIMSK lets INT3 through.
  int3 :
      {fs : List Stroke} {fw : Firmware B}
      → bit fw.eimsk int3_bit ≡ 1
      → Performs last fs (int3_isr fw)
      → Performs last fs fw
  timer3 :
      {fs : List Stroke} {fw : Firmware B} → Performs last fs (timer3_isr fw) → Performs last fs fw

-- With no interrupt.
abbrev pub play : {B : Type 0} → List Stroke → Firmware B → Firmware B
play [] fw = fw
play (f ∷ fs) fw = play fs (perform f fw)

pub play-Performs : {B : Type 0} (fs : List Stroke) (fw : Firmware B) → Performs (play fs fw) fs fw
play-Performs [] fw = ended refl
play-Performs (f ∷ fs) fw = stroke (play-Performs fs (perform f fw))
