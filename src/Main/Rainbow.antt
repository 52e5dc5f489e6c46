-- ===== src/Main/Rainbow.antt =====
-- ISS-Notify.c: the rainbow, a colour wheel that turns by one light every 81 milliseconds.
use iss_notify_firmware.Common.{
  ℕ, zero, suc, ◌+◌, ◌-◌, Option, some, List, [], ◌∷◌, get_elem?, set, u8, sub32, ltb,
  if◌then◌else◌, ◌>>=◌,
}
use iss_notify_firmware.Led.{Light}
use iss_notify_firmware.Firmware.{Firmware, led_show}
use iss_notify_firmware.Commands.Settings.{millis}

abbrev pub light : ℕ → ℕ → ℕ → Light
light a b c = record { blue = a; green = b; red = c }

-- `uint16_t rainbow[8][3]`
abbrev pub rainbow : List Light
rainbow =
    light 0xffff 0x0000 0x0000
    ∷ light 0xffff 0xbfff 0x0000
    ∷ light 0x7fff 0xffff 0x0000
    ∷ light 0x0000 0xffff 0x3fff
    ∷ light 0x0000 0xffff 0xffff
    ∷ light 0x0000 0x3fff 0xffff
    ∷ light 0x7fff 0x0000 0xffff
    ∷ light 0xffff 0x0000 0xbfff
    ∷ []

-- The row of `rainbow` that light `j` gets.
unfoldable pub rainbow_index : ℕ → ℕ → ℕ
rainbow_index j bow = if ltb 7 (j + bow) then bow + j - 8 else j + bow

-- `for (j = 0; j < 8; j++)`, with the rounds left; `none` is a read past the array.
unfoldable pub rotate : ℕ → ℕ → ℕ → List Light → Option (List Light)
rotate zero j bow show = some show
rotate (suc n) j bow show =
    get_elem? rainbow (rainbow_index j bow) >>= λ l. rotate n (j + 1) bow (set show j l)

module _ {B : Type 0} where
  -- `if (currentMillis - previousMillis > 80)`
  unfoldable pub advance : Firmware B → Firmware B
  advance fw =
      if ltb 80 (sub32 (millis fw) fw.previous_millis)
      then record fw { previous_millis = millis fw; bow_rotate = u8 (fw.bow_rotate + 1) }
      else fw

  -- `if (do_rainbow) …`
  unfoldable pub rainbow_step : Firmware B → Option (Firmware B)
  rainbow_step fw =
      if fw.do_rainbow
      then (let turned = advance fw in
          rotate 8 0 turned.bow_rotate turned.show >>= λ show. some (
            led_show (record turned {
              show = show;
              bow_rotate = if ltb 7 turned.bow_rotate then 0 else turned.bow_rotate;
            })))
      else some fw
