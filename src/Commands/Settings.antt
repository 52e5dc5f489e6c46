-- ===== src/Commands/Settings.antt =====
-- commands.c: the replies `ack`, `say_ms` and `say_time`, the colour and white balance commands,
-- and `set_clock`.
use iss_notify_firmware.Common.{
  ℕ, zero, suc, ◌+◌, true, false, List, [], ◌∷◌, ◌++◌, Bytes, codes, set, u8, if◌then◌else◌,
}
use iss_notify_firmware.Led.{Light, WhiteBalance, dark}
use iss_notify_firmware.Twi.{Twi}
use iss_notify_firmware.Rtc.{Time, mktime, get_time, set_time, reset_rtc}
use iss_notify_firmware.Stdio.{Format, lit, int16, fscanf, two_digits, unsigned_decimal}
use iss_notify_firmware.Firmware.{Firmware, print, led_show}

-- `for (; i < i + n; i++) { show[i][0] = …; show[i][1] = …; show[i][2] = …; }`
unfoldable pub paint : ℕ → ℕ → Light → List Light → List Light
paint zero i light show = show
paint (suc n) i light show = paint n (i + 1) light (set show i light)

-- The formats of the commands.
abbrev pub one_number : Format
one_number = int16 ∷ []

abbrev pub three_numbers : Format
three_numbers = int16 ∷ lit b',' ∷ int16 ∷ lit b',' ∷ int16 ∷ []

abbrev pub clock_format : Format
clock_format =
    lit b'Y'
    ∷ int16
    ∷ lit b'M'
    ∷ int16
    ∷ lit b'D'
    ∷ int16
    ∷ lit b'H'
    ∷ int16
    ∷ lit b'M'
    ∷ int16
    ∷ lit b'S'
    ∷ int16
    ∷ []

-- "Y%02dM%02dD%02dH%02dM%02dS%02d"
unfoldable pub time_text : Time → Bytes
time_text t =
    b'Y'
    ∷ (two_digits t.year
        ++ b'M'
          ∷ (two_digits t.month
              ++ b'D'
                ∷ (two_digits t.day
                    ++ b'H'
                      ∷ (two_digits t.hour
                          ++ b'M' ∷ (two_digits t.minute ++ b'S' ∷ two_digits t.second)))))

module _ {B : Type 0} where
  unfoldable pub ack : Firmware B → Firmware B
  ack fw = print (codes "ack") fw

  unfoldable pub millis : Firmware B → ℕ
  millis fw = fw.ms

  unfoldable pub say_ms : Firmware B → Firmware B
  say_ms fw = print (unsigned_decimal (millis fw)) fw

  -- Behind `fscanf`: with all values assigned, and else.
  unfoldable pub set_color_with : List ℕ → Firmware B → Firmware B
  set_color_with (color ∷ []) fw =
      print (codes "set") (record fw { eeprom = record fw.eeprom { color = color } })
  set_color_with _ fw = print (codes "err") fw

  unfoldable pub set_color : Firmware B → Firmware B
  set_color fw =
      let (vs, rest) = fscanf one_number fw.input in set_color_with vs (record fw { input = rest })

  -- What the three commands that show one brightness have in common: all lights on, `led(show)`.
  unfoldable pub show_white : Firmware B → Firmware B
  show_white fw = print (codes "set") (
      led_show (record fw {
        show = paint 8 0 (record { blue = 0xffff; green = 0xffff; red = 0xffff }) fw.show;
      }))

  unfoldable pub wb_red_with : List ℕ → Firmware B → Firmware B
  wb_red_with (v ∷ []) fw = show_white (record fw { wb = record fw.wb { red = u8 v } })
  wb_red_with _ fw = print (codes "err") fw

  unfoldable pub wb_red : Firmware B → Firmware B
  wb_red fw =
      let (vs, rest) = fscanf one_number fw.input in wb_red_with vs (record fw { input = rest })

  unfoldable pub wb_green_with : List ℕ → Firmware B → Firmware B
  wb_green_with (v ∷ []) fw = show_white (record fw { wb = record fw.wb { green = u8 v } })
  wb_green_with _ fw = print (codes "err") fw

  unfoldable pub wb_green : Firmware B → Firmware B
  wb_green fw =
      let (vs, rest) = fscanf one_number fw.input in wb_green_with vs (record fw { input = rest })

  unfoldable pub wb_blue_with : List ℕ → Firmware B → Firmware B
  wb_blue_with (v ∷ []) fw = show_white (record fw { wb = record fw.wb { blue = u8 v } })
  wb_blue_with _ fw = print (codes "err") fw

  unfoldable pub wb_blue : Firmware B → Firmware B
  wb_blue fw =
      let (vs, rest) = fscanf one_number fw.input in wb_blue_with vs (record fw { input = rest })

  unfoldable pub set_wb_with : List ℕ → Firmware B → Firmware B
  set_wb_with (b ∷ g ∷ r ∷ []) fw =
      let wb : WhiteBalance = record { blue = u8 b; green = u8 g; red = u8 r } in
      print (codes "set") (
        led_show (record fw {
          show = paint 8 0 dark fw.show;
          wb = wb;
          eeprom = record fw.eeprom { wb = wb };
        }))
  set_wb_with _ fw = print (codes "err") fw

  unfoldable pub set_wb : Firmware B → Firmware B
  set_wb fw =
      let (vs, rest) = fscanf three_numbers fw.input in set_wb_with vs (record fw { input = rest })

  unfoldable pub show_color_with : List ℕ → Firmware B → Firmware B
  show_color_with (b ∷ g ∷ r ∷ []) fw =
      led_show (record fw { show = paint 8 0 (record { blue = b; green = g; red = r }) fw.show })
  show_color_with _ fw = print (codes "err") fw

  unfoldable pub show_color : Firmware B → Firmware B
  show_color fw =
      let (vs, rest) = fscanf three_numbers fw.input in
      show_color_with vs (record fw { input = rest })

  unfoldable pub toggle_rainbow : Firmware B → Firmware B
  toggle_rainbow fw =
      if fw.do_rainbow
      then led_show (record fw { do_rainbow = false; show = paint 8 0 dark fw.show })
      else record fw { do_rainbow = true }

module _ {B : Type 0} (twi : Twi B) where
  unfoldable pub say_time : Firmware B → Firmware B
  say_time fw =
      let (now, rtc) = get_time twi fw.rtc in print (time_text now) (record fw { rtc = rtc })

  unfoldable pub set_clock_with : List ℕ → Firmware B → Firmware B
  set_clock_with (year ∷ month ∷ day ∷ hour ∷ min ∷ sec ∷ []) fw =
      let t = mktime (u8 year) (u8 month) (u8 day) (u8 hour) (u8 min) (u8 sec) in
      print (codes "set") (record fw { rtc = set_time twi t fw.rtc })
  set_clock_with _ fw = print (codes "err") fw

  -- The clock is reset before the arguments are read.
  unfoldable pub set_clock : Firmware B → Firmware B
  set_clock fw =
      let (vs, rest) = fscanf clock_format fw.input in
      set_clock_with vs (record fw { input = rest; rtc = reset_rtc twi fw.rtc })
