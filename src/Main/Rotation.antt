-- ===== src/Main/Rotation.antt =====
-- The rainbow stays within its array, turns at the right times, and shows the wheel.
use iss_notify_firmware.Common.{
  tabulate, tabulate-get_or, ◌∙◌, ℕ, zero, suc, ◌+◌, ◌%◌, ◌^◌, ◌≤◌, ◌<◌, true, some, List, [], ◌∷◌,
  length, get_or, u8, sub32, u32, ltb, if◌then◌else◌, ◌≡◌, refl, arith, map, ap,
}
use iss_notify_firmware.Led.{Light, dark, led}
use iss_notify_firmware.Firmware.{Firmware, led_show}
use iss_notify_firmware.Commands.Settings.{millis}
use iss_notify_firmware.Main.Rainbow.{rainbow, rainbow_index, rotate, advance, rainbow_step}

-- The wheel turned by `bow` lights: light `j` has the colour `j + bow`, counted round.
abbrev pub wheel : ℕ → List Light
wheel bow = map (λ j. get_or rainbow ((j + bow) % 8) dark) (0 ∷ 1 ∷ 2 ∷ 3 ∷ 4 ∷ 5 ∷ 6 ∷ 7 ∷ [])

-- One lap of the loop for each position of the wheel.
rotate_table :
    (bow : ℕ) (f : ℕ → Light) → bow ≤ 8 → rotate 8 0 bow (tabulate 8 f) ≡ some (wheel bow)
unfolding rotate rainbow_index
rotate_table zero f h = refl
rotate_table (suc zero) f h = refl
rotate_table (suc (suc zero)) f h = refl
rotate_table (suc (suc (suc zero))) f h = refl
rotate_table (suc (suc (suc (suc zero)))) f h = refl
rotate_table (suc (suc (suc (suc (suc zero))))) f h = refl
rotate_table (suc (suc (suc (suc (suc (suc zero)))))) f h = refl
rotate_table (suc (suc (suc (suc (suc (suc (suc zero))))))) f h = refl
rotate_table (suc (suc (suc (suc (suc (suc (suc (suc zero)))))))) f h = refl
rotate_table (suc (suc (suc (suc (suc (suc (suc (suc (suc n))))))))) f h = absurd (omega arith)

rotate-wheel :
    (bow : ℕ) (show : List Light)
    → bow ≤ 8
    → length show ≡ 8
    → rotate 8 0 bow show ≡ some (wheel bow)
rotate-wheel bow show h k =
    ap (rotate 8 0 bow) (tabulate-get_or 8 show dark k)
    ∙ rotate_table bow (λ i. get_or show i dark) h

module _ {B : Type 0} where
  -- The position that the wheel is shown at, and when it was reached.
  abbrev pub position : Firmware B → ℕ
  position fw = (advance fw).bow_rotate

  advance-le : (fw : Firmware B) → fw.bow_rotate ≤ 7 → position fw ≤ 8
  unfolding advance
  advance-le fw h = ground arith

  advance-elapsed :
      (fw : Firmware B) (elapsed : ℕ)
      → elapsed < 2 ^ 32
      → fw.previous_millis < 2 ^ 32
      → fw.ms ≡ u32 (fw.previous_millis + elapsed)
      → advance fw ≡ (
          if ltb 80 elapsed
          then record fw { previous_millis = fw.ms; bow_rotate = u8 (fw.bow_rotate + 1) }
          else fw)
  unfolding advance millis
  advance-elapsed fw elapsed small was now =
      let gone : sub32 fw.ms fw.previous_millis ≡ elapsed = omega arith in
      ap
        (λ t.
          if ltb 80 t
          then record fw { previous_millis = fw.ms; bow_rotate = u8 (fw.bow_rotate + 1) }
          else fw)
        gone

  -- What a step shows.
  abbrev pub shown : Firmware B → Firmware B
  shown fw =
      let turned = advance fw in
      led_show (record turned {
        show = wheel turned.bow_rotate;
        bow_rotate = if ltb 7 turned.bow_rotate then 0 else turned.bow_rotate;
      })

  advance-show : (fw : Firmware B) → (advance fw).show ≡ fw.show
  unfolding advance
  advance-show fw = ground arith

  pub rainbow_step-shown :
      (fw : Firmware B)
      → fw.do_rainbow ≡ true
      → length fw.show ≡ 8
      → fw.bow_rotate ≤ 7
      → rainbow_step fw ≡ some (shown fw)
  unfolding rainbow_step
  rainbow_step-shown fw on lights low =
      let lap =
        rotate-wheel (position fw) (advance fw).show (advance-le fw low)
          (ap length (advance-show fw) ∙ lights) in
      simp on (rw lap)

  -- If the rainbow is on, there are eight lights, the index is at 0 to 7, and `elapsed`
  -- milliseconds, below 2 ^ 32, have passed since the last turn, counted modulo 2 ^ 32, then the
  -- rainbow reads within its array: it turns by one light if `elapsed` is above 80 and not at all
  -- otherwise, shows the wheel at its position on the LEDs, leaves the position modulo 8, and
  -- takes down the time of the turn.
  pub rainbow_step-wheel :
      (fw : Firmware B) (elapsed : ℕ)
      → fw.do_rainbow ≡ true
      → length fw.show ≡ 8
      → fw.bow_rotate ≤ 7
      → elapsed < 2 ^ 32
      → fw.previous_millis < 2 ^ 32
      → fw.ms ≡ u32 (fw.previous_millis + elapsed)
      → (fw' : Firmware B) × (rainbow_step fw ≡ some fw')
        × (fw'.show ≡ wheel (fw.bow_rotate + (if ltb 80 elapsed then 1 else 0)))
        × (fw'.bow_rotate ≡ (fw.bow_rotate + (if ltb 80 elapsed then 1 else 0)) % 8)
        × (fw'.previous_millis ≡ (if ltb 80 elapsed then fw.ms else fw.previous_millis))
        × (fw'.leds ≡ led fw.wb fw'.show fw.leds)
  unfolding led_show
  rainbow_step-wheel fw elapsed on lights low small was now =
      let turned = advance-elapsed fw elapsed small was now in
      (
        shown fw,
        rainbow_step-shown fw on lights low,
        rw turned (ground arith),
        rw turned (ground arith),
        rw turned (ground arith),
        rw turned (ground arith),
      )
