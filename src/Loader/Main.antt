-- ===== src/Loader/Main.antt =====
-- hid_bootloader_cli.c: `main`. The device and the file are behind an interface over an abstract
-- state; what is written to stdout and stderr is left out, save for the reason of an `exit(1)`.
pub mod Waiting
pub mod Outcome
pub mod Keeps
pub mod Upload
pub mod Whole
use iss_notify_firmware.Common.{
  ℕ, zero, suc, ◌+◌, ◌-◌, Bool, true, false, ◌||◌, not, Option, none, some, List, [], ◌∷◌, ◌++◌,
  Bytes, ◌==◌, if◌then◌else◌, ◌>>=◌, replicate, take,
}
use iss_notify_firmware.Loader.{Image}
use iss_notify_firmware.Loader.Hex.{HexState, signed_lt, read_intel_hex}
use iss_notify_firmware.Loader.Options.{Options, defaults, parse_options}
use iss_notify_firmware.Loader.Program.{Teensy, program}

-- The messages with which the program exits.
pub data Failure : Type 0 where
  unknown_mcu no_filename no_mcu hex_error no_rebootor no_device no_info write_error : Failure

-- `exit(1)`, or a value and the state.
pub data Result (A : Type 0) : Type 0 where
  exited : Failure → Result A
  went : A → Result A

-- What `main` calls: the functions of one of the USB back ends, of which two may exit or, `none`,
-- run out of fuel; `delay(0.25)`; and the content of a file, if it can be opened.
pub record Host (D : Type 0) : Type 0 where
  pub teensy : Teensy D
  pub teensy_open : D → Option (Result (Bool × D))
  pub teensy_close : D → D
  pub hard_reboot : D → Option (Result (Bool × D))
  pub delay : D → D
  pub content : Bytes → D → Option Bytes

-- A failed step ends the program.
infixl 5 ◌and_then◌
abbrev pub ◌and_then◌ :
    {A B : Type 0} → Option (Result A) → (A → Option (Result B)) → Option (Result B)
none and_then f = none
some (exited e) and_then f = some (exited e)
some (went a) and_then f = f a

-- The flag `waited` that the loop ends with, and the state.
abbrev pub Opened : Type 0 → Type 0
Opened D = Result (Bool × D)

module _ {D : Type 0} (host : Host D) where
  -- The loop that opens the device, with the variables that it changes; `none` is a loop of more
  -- rounds than the fuel.
  unfoldable pub open_device : ℕ → Bool → Bool → Bool → D → Option (Opened D)
  open_device zero wait reboot waited d = none
  open_device (suc fuel) wait reboot waited d = host.teensy_open d and_then λ (opened, d').
      elim opened [
        | true ↦ some (went (waited, d'))
        | false ↦ elim reboot [
          | true ↦
              (host.hard_reboot d' and_then λ (found, d''). elim found [
                | true ↦ open_device fuel true false true (host.delay d'')
                | false ↦ some (exited no_rebootor)
              ])
          | false ↦ elim wait [
            | true ↦ open_device fuel true false true (host.delay d')
            | false ↦ some (exited no_device)
          ]
        ]
      ]

  -- `num = read_intel_hex(filename); if (num < 0) die(…)`; `none` is undefined behaviour.
  unfoldable pub read_file : Bytes → D → Option (Result Image)
  read_file name d = read_intel_hex (host.content name d) >>= λ (num, st).
      if signed_lt num 0 then some (exited hex_error) else some (went st.memory)

  -- `if (waited)`: the file is read again.
  unfoldable pub read_again : Bool → Bytes → Image → D → Option (Result Image)
  read_again waited name im d = if waited then read_file name d else some (went im)

  -- The packet that boots the new program.
  unfoldable pub boot : Options → D → D
  boot o d =
      if o.reboot_after_programming
      then (host.teensy.write d (0xFF ∷ 0xFF ∷ replicate o.block_size 0) false).1
      else d

  -- From the programming on, `d` being the state behind the opening. A loop over blocks of at
  -- least one byte needs no more rounds than the code has bytes, and one to end.
  unfoldable pub program_device : Options → Image → D → Result D
  program_device o im d =
      elim (program host.teensy o.code_size o.block_size im (o.code_size + 1) 0 true d) [
        | none ↦ exited write_error
        | some d' ↦ went (host.teensy_close (boot o d'))
      ]

  -- Behind the tests of the options.
  unfoldable pub serve : ℕ → Options → Bytes → D → Option (Result D)
  serve fuel o name d = read_file name d and_then λ im.
      open_device fuel o.wait_for_device_to_appear o.hard_reboot_device false d
      and_then λ (waited, d').
          read_again waited name im d' and_then λ im'. some (program_device o im' d')

  unfoldable pub main_with : ℕ → Option Bytes → Options → D → Option (Result D)
  main_with fuel none o d = some (exited no_filename)
  main_with fuel (some name) o d =
      if o.code_size == 0 then some (exited no_mcu) else serve fuel o name d

  -- `args` are the arguments behind the program's name, `fuel` the rounds of waiting.
  unfoldable pub main : ℕ → List Bytes → D → Option (Result D)
  main fuel args d = elim (parse_options args defaults) [
    | none ↦ some (exited unknown_mcu)
    | some o ↦ main_with fuel o.filename o d
  ]
