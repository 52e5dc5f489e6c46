-- ===== src/Commands/Colours.antt =====
-- What the colour commands put on the LEDs.
use iss_notify_firmware.Common.{
  ℕ, ◌%◌, ◌^◌, ◌<◌, List, [], ◌∷◌, ◌++◌, Bytes, codes, length, replicate, ◌≡◌, refl, ap, ◌∙◌,
  tabulate-get_or,
}
use iss_notify_firmware.Led.{Light, WhiteBalance, dark}
use iss_notify_firmware.Stdio.{fscanf, unsigned_decimal}
use iss_notify_firmware.Stdio.Digits.{Stops}
use iss_notify_firmware.Stdio.Fields.{fscanf-lit, fscanf-int16}
use iss_notify_firmware.Firmware.{Firmware, print, led_show}
use iss_notify_firmware.Commands.Settings.{
  paint, three_numbers, show_color_with, show_color, set_wb_with, set_wb,
}

-- The loop over the eight lights gives them all one colour.
pub paint-replicate :
    (light : Light) (show : List Light) → length show ≡ 8 → paint 8 0 light show ≡ replicate 8 light
paint-replicate light show h =
    ap (paint 8 0 light) (tabulate-get_or 8 show dark h) ∙ (unfold paint in refl)

-- The host's text of three numbers.
abbrev pub numbers_text : ℕ → ℕ → ℕ → Bytes → Bytes
numbers_text b g r rest =
    unsigned_decimal b ++ b',' ∷ (unsigned_decimal g ++ b',' ∷ (unsigned_decimal r ++ rest))

scan_numbers :
    (b g r : ℕ) (rest : Bytes)
    → b < 2 ^ 16
    → g < 2 ^ 16
    → r < 2 ^ 16
    → Stops rest
    → fscanf three_numbers (numbers_text b g r rest) ≡ (b ∷ g ∷ r ∷ [], rest)
scan_numbers b g r rest hb hg hr stops =
    rw
      (
        fscanf-int16 b _ _ hb refl,
        fscanf-lit b',',
        fscanf-int16 g _ _ hg refl,
        fscanf-lit b',',
        fscanf-int16 r _ rest hr stops,
      )
      (unfold fscanf in refl)

module _ {B : Type 0} where
  -- `show_color` on the host's text.
  pub show_color_text :
      (fw : Firmware B) (b g r : ℕ) (rest : Bytes)
      → fw.input ≡ numbers_text b g r rest
      → b < 2 ^ 16
      → g < 2 ^ 16
      → r < 2 ^ 16
      → Stops rest
      → length fw.show ≡ 8
      → show_color fw
        ≡ led_show (record fw {
          input = rest;
          show = replicate 8 (record { blue = b; green = g; red = r });
        })
  unfolding show_color show_color_with
  show_color_text fw b g r rest text hb hg hr stops lights =
      let light : Light = record { blue = b; green = g; red = r } in
      rw
        (
          ap (fscanf three_numbers) text ∙ scan_numbers b g r rest hb hg hr stops,
          paint-replicate light fw.show lights,
        )
        refl

  -- `set_wb` on the host's text.
  pub set_wb_text :
      (fw : Firmware B) (b g r : ℕ) (rest : Bytes)
      → fw.input ≡ numbers_text b g r rest
      → b < 2 ^ 16
      → g < 2 ^ 16
      → r < 2 ^ 16
      → Stops rest
      → length fw.show ≡ 8
      → let wb =
          (let w : WhiteBalance = record { blue = b % 256; green = g % 256; red = r % 256 } in w) in
        set_wb fw
        ≡ print (codes "set") (
            led_show (record fw {
              input = rest;
              show = replicate 8 dark;
              wb = wb;
              eeprom = record fw.eeprom { wb = wb };
            }))
  unfolding set_wb set_wb_with
  set_wb_text fw b g r rest text hb hg hr stops lights =
      rw
        (
          ap (fscanf three_numbers) text ∙ scan_numbers b g r rest hb hg hr stops,
          paint-replicate dark fw.show lights,
        )
        refl
