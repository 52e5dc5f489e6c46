-- ===== src/Animations/Show.antt =====
-- Test/animations/ISS-Notify.c: the frames that the main loop hands to `set_data`, and the set-up.
-- The delays are left out; the timer's interrupts only read what `set_data` has written.
use iss_notify_firmware.Common.{
  ℕ, zero, suc, ◌+◌, ◌-◌, ◌%◌, ◌^◌, List, [], ◌∷◌, get_or, set, bit_and,
}
use iss_notify_firmware.Animations.Driver.{Driver, TimerBits, led_init, set_data}

abbrev pub colorwheel : List ℕ
colorwheel = 8 ∷ 518 ∷ 1028 ∷ 1538 ∷ 2048 ∷ 1568 ∷ 1088 ∷ 608 ∷ 128 ∷ 98 ∷ 68 ∷ 38 ∷ []

abbrev pub pong : List ℕ
pong = 4095 ∷ 546 ∷ 273 ∷ 0 ∷ 0 ∷ 0 ∷ 0 ∷ 0 ∷ 0 ∷ 0 ∷ 0 ∷ 0 ∷ []

abbrev pub ping : List ℕ
ping = 4095 ∷ 0 ∷ 0 ∷ 0 ∷ 0 ∷ 0 ∷ 0 ∷ 0 ∷ 0 ∷ 0 ∷ 273 ∷ 546 ∷ []

-- The array `show`, the driver, and the frames that it was given, the newest first.
pub record Stage : Type 0 where
  pub show : List ℕ
  pub driver : Driver
  pub frames : List (List ℕ)

-- `set_data(show)`
unfoldable pub present : Stage → Stage
present b = record b { driver = set_data b.show b.driver; frames = b.show ∷ b.frames }

-- `for (i=0;i<12;i++) { show[i] = colorwheel[i]; set_data(show); }`, with the rounds left.
unfoldable pub bring_on : ℕ → ℕ → Stage → Stage
bring_on zero i b = b
bring_on (suc n) i b =
    bring_on n (i + 1) (present (record b { show = set b.show i (get_or colorwheel i 0) }))

-- `for (j=0;j<12;j++) show[j] = table[(i+j) % 12];`, from `j` on, with the rounds left.
unfoldable pub turn : List ℕ → ℕ → ℕ → ℕ → List ℕ → List ℕ
turn table i zero j show = show
turn table i (suc n) j show = turn table i n (j + 1) (set show j (get_or table ((i + j) % 12) 0))

unfoldable pub show_turned : List ℕ → ℕ → Stage → Stage
show_turned table i b = present (record b { show = turn table i 12 0 b.show })

-- `for (i=11;i>=0;i--)`: the next index is one less than the rounds left.
unfoldable pub turn_down : List ℕ → ℕ → Stage → Stage
turn_down table zero b = b
turn_down table (suc i) b = turn_down table i (show_turned table i b)

-- `for (i=0;i<12;i++)`, with the rounds left.
unfoldable pub turn_up : List ℕ → ℕ → ℕ → Stage → Stage
turn_up table zero i b = b
turn_up table (suc n) i b = turn_up table n (i + 1) (show_turned table i b)

-- `for (k=0;k<4;k++)`, with the rounds left.
unfoldable pub spin : ℕ → Stage → Stage
spin zero b = b
spin (suc k) b = spin k (turn_down colorwheel 12 b)

-- `show[i] = 0`, with the rounds left.
unfoldable pub clear_show : ℕ → ℕ → List ℕ → List ℕ
clear_show zero i show = show
clear_show (suc n) i show = clear_show n (i + 1) (set show i 0)

unfoldable pub quiet : Stage → Stage
quiet b = present (record b { show = clear_show 12 0 b.show })

-- The body of `while (1)`.
unfoldable pub animate : Stage → Stage
animate b = quiet (turn_down ping 12 (turn_up pong 12 0 (spin 4 (bring_on 12 0 b))))

-- The registers that `Setup_Hardware` writes, and the numbers of their bits.
pub record Registers : Type 0 where
  pub clkpr : ℕ
  pub mcucr : ℕ
  pub mcusr : ℕ
  pub watchdog : ℕ
  pub interrupts : ℕ

pub record ChipBits : Type 0 where
  pub jtd : ℕ
  pub wdrf : ℕ
  pub timer : TimerBits

unfoldable pub setup_hardware : ChipBits → Registers × Driver → Registers × Driver
setup_hardware bits (c, d) = (
  record {
    clkpr = 0;
    mcucr = 2 ^ bits.jtd;
    mcusr = bit_and c.mcusr (2 ^ 16 - 1 - 2 ^ bits.wdrf);
    watchdog = 0;
    interrupts = 0;
  },
  led_init bits.timer d,
)
