-- ===== src/Main/ColourSession.antt =====
-- The white balance is set in one round of the main loop and a colour shown in the next.
use iss_notify_firmware.Common.{
  ℕ, ◌%◌, ◌^◌, ◌<◌, Bool, true, false, some, List, ◌++◌, Bytes, codes, length, replicate, ltb, ◌≡◌,
  refl, ap, ap₂, ◌∙◌, ◌>>=◌, if◌then◌else◌,
}
use iss_notify_firmware.Twi.{Twi}
use iss_notify_firmware.Led.{Light, WhiteBalance, LedPins, dark, led}
use iss_notify_firmware.Led.Wire.{IsIdle, Wrote, Wrote-trans, clocked_in}
use iss_notify_firmware.Led.Packet.{encode, frame_fields}
use iss_notify_firmware.Led.Frame.{led-frame}
use iss_notify_firmware.Stdio.Digits.{Stops, unsigned_decimal-NoSpace}
use iss_notify_firmware.Firmware.{Firmware, print, led_show}
use iss_notify_firmware.Commands.Colours.{numbers_text, show_color_text, set_wb_text}
use iss_notify_firmware.Commands.Dispatch.{Command, respond}
use iss_notify_firmware.Commands.Invariant.{IsWellFormed}
use iss_notify_firmware.Main.{listen, handle_alarm, handle_reset, iteration}
use iss_notify_firmware.Main.Events.{rainbow_step_off}
use iss_notify_firmware.Main.Command.{command_text, listen_command}

-- The lights, and what is behind them, are those of a state, sent once more.
record Lit {B : Type 0} (s t : Firmware B) : Type 0 where
  wb : t.wb ≡ s.wb
  show : t.show ≡ s.show
  eeprom : t.eeprom ≡ s.eeprom
  output : t.output ≡ s.output
  input : t.input ≡ s.input
  do_rainbow : t.do_rainbow ≡ s.do_rainbow
  leds : t.leds ≡ led s.wb s.show s.leds

-- Three numbers that a `uint16_t` holds.
abbrev pub Words : ℕ → ℕ → ℕ → Type 0
Words b g r = (b < 2 ^ 16) × (g < 2 ^ 16) × (r < 2 ^ 16)

-- What is left of them in the `uint8_t` fields of the white balance.
abbrev pub low_bytes : ℕ → ℕ → ℕ → WhiteBalance
low_bytes b g r = record { blue = b % 256; green = g % 256; red = r % 256 }

abbrev pub light : ℕ → ℕ → ℕ → Light
light b g r = record { blue = b; green = g; red = r }

-- The same frame, sent twice.
led_twice :
    (wb : WhiteBalance) (ls : List Light) (p : LedPins)
    → length ls ≡ 8
    → IsIdle p
    → Wrote p (encode (frame_fields wb ls) ++ encode (frame_fields wb ls)) (led wb ls (led wb ls p))
led_twice wb ls p h idle =
    let first = led-frame wb ls p h idle in
    Wrote-trans (encode (frame_fields wb ls)) (encode (frame_fields wb ls)) first
      (led-frame wb ls (led wb ls p) h first.idle)

module _ {B : Type 0} (twi : Twi B) where
  shown-Lit :
      (alarmed : Bool) (fw x : Firmware B)
      → Lit fw (led_show x)
      → Lit fw (led_show fw)
      → Lit fw (led_show (if alarmed then x else fw))
  shown-Lit true fw x h k = h
  shown-Lit false fw x h k = k

  round-Lit : (fw : Firmware B) → Lit fw (led_show (handle_alarm twi fw))
  unfolding handle_alarm led_show
  round-Lit fw =
      shown-Lit (ltb 0 fw.alarm) fw _
        (record {
          wb = refl;
          show = refl;
          eeprom = refl;
          output = refl;
          input = refl;
          do_rainbow = refl;
          leds = refl;
        })
        (record {
          wb = refl;
          show = refl;
          eeprom = refl;
          output = refl;
          input = refl;
          do_rainbow = refl;
          leds = refl;
        })

  -- A round behind whose command the rainbow is off.
  iteration-Lit :
      (fw : Firmware B) {heard : Firmware B}
      → listen twi fw ≡ some heard
      → heard.do_rainbow ≡ false
      → (fw' : Firmware B) × (iteration twi fw ≡ some fw') × Lit heard fw'
  unfolding iteration handle_reset led_show
  iteration-Lit fw {heard} e off =
      let ready = handle_alarm twi heard in
      let lit = round-Lit heard in
      (
        handle_reset twi (led_show ready),
        rw e (
            ap (λ m. m >>= λ fw₂. some (handle_reset twi (led_show fw₂)))
              (rainbow_step_off twi ready (lit.do_rainbow ∙ off))),
        record {
          wb = lit.wb;
          show = lit.show;
          eeprom = lit.eeprom;
          output = lit.output;
          input = lit.input;
          do_rainbow = lit.do_rainbow;
          leds = lit.leds;
        },
      )

  -- Behind the first command: the white balance set and the lights off.
  abbrev balanced : Firmware B → WhiteBalance → Bytes → Firmware B
  balanced fw wb rest = print (codes "set") (
      led_show (record fw {
        input = rest;
        show = replicate 8 dark;
        wb = wb;
        eeprom = record fw.eeprom { wb = wb };
      }))

  abbrev coloured : Firmware B → Light → Bytes → Firmware B
  coloured fw l rest = led_show (record fw { input = rest; show = replicate 8 l })

  hears_wb :
      (fw : Firmware B) (b g r : ℕ) (rest : Bytes)
      → fw.input ≡ command_text b'W' (numbers_text b g r rest)
      → b < 2 ^ 16
      → g < 2 ^ 16
      → r < 2 ^ 16
      → Stops rest
      → length fw.show ≡ 8
      → listen twi fw
        ≡ some (balanced fw (record { blue = b % 256; green = g % 256; red = r % 256 }) rest)
  unfolding respond
  hears_wb fw b g r rest text hb hg hr stops lights =
      listen_command twi 10 b'W' Command.set_wb fw (numbers_text b g r rest) refl text
        (unsigned_decimal-NoSpace b _)
      ∙ ap some (
          set_wb_text (record fw { input = numbers_text b g r rest }) b g r rest refl hb hg hr stops
            lights)

  hears_colour :
      (fw : Firmware B) (b g r : ℕ) (rest : Bytes)
      → fw.input ≡ command_text b'l' (numbers_text b g r rest)
      → b < 2 ^ 16
      → g < 2 ^ 16
      → r < 2 ^ 16
      → Stops rest
      → length fw.show ≡ 8
      → listen twi fw ≡ some (coloured fw (record { blue = b; green = g; red = r }) rest)
  unfolding respond
  hears_colour fw b g r rest text hb hg hr stops lights =
      listen_command twi 11 b'l' Command.show_color fw (numbers_text b g r rest) refl text
        (unsigned_decimal-NoSpace b _)
      ∙ ap some (
          show_color_text (record fw { input = numbers_text b g r rest }) b g r rest refl hb hg hr
            stops lights)

  -- From a well-formed state with the rainbow off whose input is the command "ISSW" with the text
  -- of three 16-bit numbers, then the command "ISSl" with the text of three more and a text that
  -- begins with no digit: two rounds of the main loop, with no interrupt in them, end and read
  -- exactly the two commands. The low bytes of the first three numbers are in the EEPROM as the
  -- white balance, all eight lights have the colour of the second three, and the LED chips have
  -- received, at the new white balance, the dark frame twice and then the frame of the colour
  -- twice, once from the command and once from its round; the one reply is "set".
  pub colour_session :
      (fw : Firmware B) (b g r b' g' r' : ℕ) (rest : Bytes)
      → fw.input
        ≡ command_text b'W' (numbers_text b g r (command_text b'l' (numbers_text b' g' r' rest)))
      → Words b g r
      → Words b' g' r'
      → Stops rest
      → fw.do_rainbow ≡ false
      → IsWellFormed fw
      → let wb = low_bytes b g r in
        let lights = replicate 8 (light b' g' r') in
        let off = encode (frame_fields wb (replicate 8 dark)) in
        let on = encode (frame_fields wb lights) in
        (fw₁ : Firmware B) × (fw₂ : Firmware B) × (iteration twi fw ≡ some fw₁)
        × (iteration twi fw₁ ≡ some fw₂)
        × (fw₂.eeprom ≡ record fw.eeprom { wb = wb })
        × (fw₂.show ≡ lights)
        × (clocked_in fw₂.leds ≡ clocked_in fw.leds ++ ((off ++ off) ++ (on ++ on)))
        × (fw₂.output ≡ fw.output ++ codes "set")
        × (fw₂.input ≡ rest)
  unfolding print led_show
  colour_session fw b g r b' g' r' rest text words words' stops dull w =
      let wb = low_bytes b g r in
      let lights = replicate 8 (light b' g' r') in
      let off = encode (frame_fields wb (replicate 8 dark)) in
      let on = encode (frame_fields wb lights) in
      let later = command_text b'l' (numbers_text b' g' r' rest) in
      let (fw₁, first, lit₁) =
        iteration-Lit fw (hears_wb fw b g r later text words.0 words.1 words.2 refl w.lights)
          dull in
      let dark_twice = led_twice wb (replicate 8 dark) fw.leds refl w.idle in
      let (fw₂, second, lit₂) =
        iteration-Lit fw₁
          (hears_colour fw₁ b' g' r' rest lit₁.input words'.0 words'.1 words'.2 stops
            (ap length lit₁.show))
          (lit₁.do_rainbow ∙ dull) in
      let before : led fw₁.wb lights fw₁.leds
          ≡ led wb lights (led wb (replicate 8 dark) (led wb (replicate 8 dark) fw.leds)) =
        ap₂ (λ x p. led x lights p) lit₁.wb lit₁.leds in
      let lit_twice = led_twice wb lights _ refl dark_twice.idle in
      let sent = Wrote-trans (off ++ off) (on ++ on) dark_twice lit_twice in
      (
        fw₁,
        fw₂,
        first,
        second,
        lit₂.eeprom ∙ lit₁.eeprom,
        lit₂.show,
        ap clocked_in (lit₂.leds ∙ ap₂ (λ x p. led x lights p) lit₁.wb before) ∙ sent.wire,
        lit₂.output ∙ lit₁.output,
        lit₂.input,
      )
