-- ===== src/Loader/Options.antt =====
-- hid_bootloader_cli.c: the option variables and `parse_options`. A string is the list of its
-- bytes before the final NUL. The variables that hold 0 or 1 are flags.
pub mod Chips
use iss_notify_firmware.Common.{
  ℕ, zero, suc, ◌+◌, ◌*◌, Bool, true, false, ◌&&◌, Option, none, some, List, [], ◌∷◌, Bytes, codes,
  ◌==◌, if◌then◌else◌, ◌>>=◌, drop,
}

-- `strncmp(s, prefix, strlen(prefix)) == 0`
unfoldable pub starts_with : Bytes → Bytes → Bool
starts_with [] s = true
starts_with (p ∷ ps) [] = false
starts_with (p ∷ ps) (c ∷ s) = let rest = starts_with ps s in if c == p then rest else false

-- `strcmp(s, text) == 0`
unfoldable pub same_text : Bytes → Bytes → Bool
same_text [] [] = true
same_text [] (c ∷ s) = false
same_text (p ∷ ps) [] = false
same_text (p ∷ ps) (c ∷ s) = let rest = same_text ps s in if c == p then rest else false

-- The variables that the command line sets.
pub record Options : Type 0 where
  pub wait_for_device_to_appear : Bool
  pub hard_reboot_device : Bool
  pub reboot_after_programming : Bool
  pub verbose : Bool
  pub code_size : ℕ
  pub block_size : ℕ
  pub filename : Option Bytes

abbrev pub defaults : Options
defaults = record {
  wait_for_device_to_appear = false;
  hard_reboot_device = false;
  reboot_after_programming = true;
  verbose = false;
  code_size = 0;
  block_size = 0;
  filename = none;
}

-- What is left of an MCU's name behind its family; `none` is `die`.
unfoldable pub family : Bytes → Option Bytes
family arg =
    if starts_with (codes "at90usb") arg
    then some (drop 7 arg)
    else if starts_with (codes "atmega") arg
    then some (drop 6 arg)
    else none

-- Code size and block size; `none` is `die`.
unfoldable pub sizes : Bytes → Option (ℕ × ℕ)
sizes arg =
    if starts_with (codes "128") arg
    then some (128 * 1024, 256)
    else if starts_with (codes "64") arg
    then some (64 * 1024, 256)
    else if starts_with (codes "32") arg
    then some (32 * 1024, 128)
    else if starts_with (codes "16") arg
    then some (16 * 1024, 128)
    else if starts_with (codes "8") arg
    then some (8 * 1024, 128)
    else none

-- What stands behind "-mmcu=".
unfoldable pub set_mcu : Bytes → Options → Option Options
set_mcu arg o = family arg >>= λ chip.
    sizes chip >>= λ (code, block). some (record o { code_size = code; block_size = block })

-- An argument that begins with a dash; an unknown one is skipped.
unfoldable pub parse_flag : Bytes → Options → Option Options
parse_flag arg o =
    if same_text (codes "-w") arg
    then some (record o { wait_for_device_to_appear = true })
    else if same_text (codes "-r") arg
    then some (record o { hard_reboot_device = true })
    else if same_text (codes "-n") arg
    then some (record o { reboot_after_programming = false })
    else if same_text (codes "-v") arg
    then some (record o { verbose = true })
    else if starts_with (codes "-mmcu=") arg
    then set_mcu (drop 6 arg) o
    else some o

-- The body of the loop.
unfoldable pub parse_option : Bytes → Options → Option Options
parse_option [] o = some (record o { filename = some [] })
parse_option (c ∷ s) o =
    if c == b'-' then parse_flag (c ∷ s) o else some (record o { filename = some (c ∷ s) })

-- The arguments behind the program's name; `none` is `die("Unknown MCU type\n")`.
unfoldable pub parse_options : List Bytes → Options → Option Options
parse_options [] o = some o
parse_options (arg ∷ args) o = parse_option arg o >>= λ o'. parse_options args o'
