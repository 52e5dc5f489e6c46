-- ===== src/Tests/Lamps.antt =====
-- Runs of the animations' driver and main loop.
use iss_notify_firmware.Common.{◌+◌, ◌%◌, [], ◌∷◌, ◌≡◌, refl, arith, bit, get_or, replicate}
use iss_notify_firmware.Led.Wire.{IsIdle}
use iss_notify_firmware.Animations.Driver.{
  Driver, plane, red_part, green_part, blue_part, set_data, timer1_isr,
}
use iss_notify_firmware.Animations.Show.{Stage, colorwheel, animate}
use iss_notify_firmware.Animations.Wire.{Clocked, level_bits, limit, timer1_isr_lem}
use iss_notify_firmware.Animations.Planes.{levels, set_data_lem}
use iss_notify_firmware.Animations.Film.{push, film, animate-film}

abbrev lamp : Driver
lamp = record {
  pins = record { portf = 0x80; ddrf = 0x33; trail = [] };
  timsk1 = 2;
  tccr1b = 12;
  ocr1a = 8;
  level = 3;
  color_data = replicate 3 (1 ∷ 2 ∷ 4 ∷ 0xFFF ∷ []);
}

lamp-IsIdle : IsIdle lamp.pins
lamp-IsIdle = record { byte = omega arith; clock_low = refl }

timer1_isr_lem_example :
    Clocked lamp.pins (level_bits lamp.color_data 3) (timer1_isr lamp).pins
    × ((timer1_isr lamp).level ≡ (3 + 3) % 4)
    × ((timer1_isr lamp).ocr1a ≡ limit 3)
    × ((timer1_isr lamp).color_data ≡ lamp.color_data)
timer1_isr_lem_example = timer1_isr_lem lamp lamp-IsIdle (omega arith)

set_data_lem_example :
    (bit (plane (set_data colorwheel lamp).color_data 0 1) 1
      ≡ bit (levels (red_part (get_or colorwheel 1 0))) 1)
    × (bit (plane (set_data colorwheel lamp).color_data 1 1) 1
        ≡ bit (levels (green_part (get_or colorwheel 1 0))) 1)
    × (bit (plane (set_data colorwheel lamp).color_data 2 1) 1
        ≡ bit (levels (blue_part (get_or colorwheel 1 0))) 1)
set_data_lem_example = set_data_lem colorwheel lamp 1 1 refl (omega arith) (omega arith)

abbrev board : Stage
board = record { show = replicate 12 0; driver = lamp; frames = [] }

animate-film_example : (animate board).frames ≡ push (film (replicate 12 0)) []
animate-film_example = animate-film board refl
