-- ===== src/Loader/Uhid.antt =====
-- hid_bootloader_cli.c with USE_UHID: the functions that reach the device through files below
-- /dev. A negative file descriptor is `none`; the result `none` of a function is `die`.
pub mod Files
pub mod Closed
use iss_notify_firmware.Common.{
  ℕ, Bool, true, false, ◌&&◌, Option, none, some, List, [], ◌∷◌, ◌++◌, Bytes, codes, ◌==◌,
  if◌then◌else◌, is_some, ◌>>=◌, length, take,
}
use iss_notify_firmware.Loader.Options.{starts_with}
use iss_notify_firmware.Loader.Program.{Teensy}
use iss_notify_firmware.Loader.Main.{Host, Result, exited, went, no_info}

-- The system, over an abstract state.
pub record Unix (S : Type 0) : Type 0 where
  pub opendir : S → Bool × S
  -- The names that `readdir` brings one by one.
  pub entries : S → List Bytes
  pub closedir : S → S
  pub open_file : Bytes → S → Option ℕ × S
  -- `ioctl(fd, USB_GET_DEVICEINFO, &info)`: vendor and product.
  pub get_deviceinfo : ℕ → S → Option (ℕ × ℕ) × S
  pub close : ℕ → S → S
  -- How many bytes are written.
  pub write : Option ℕ → Bytes → S → Option ℕ × S
  pub delay : S → S

-- The system's state and `uhid_teensy_fd`.
pub record Session (S : Type 0) : Type 0 where
  pub unix : S
  pub uhid_teensy_fd : Option ℕ

-- `r == len`
abbrev all_written : Option ℕ → Bytes → Bool
all_written none buf = false
all_written (some r) buf = r == length buf

-- A result, or `die`.
abbrev pub or_exit : {A : Type 0} → Option A → Option (Result A)
or_exit none = some (exited no_info)
or_exit (some a) = some (went a)

module _ {S : Type 0} (sys : Unix S) where
  -- The device behind an open file is the wanted one, or the file is closed.
  unfoldable pub check_info : ℕ → ℕ → ℕ → S → Option (Option ℕ × S)
  check_info vid pid fd s =
      let (info, s') = sys.get_deviceinfo fd s in
      elim info [
        | none ↦ none
        | some (vendor, product) ↦ some (
            if vendor == vid && product == pid
            then (some fd, sys.closedir s')
            else (none, sys.close fd s'))
      ]

  -- The body of the loop: a file descriptor ends it.
  unfoldable pub try_entry : ℕ → ℕ → Bytes → S → Option (Option ℕ × S)
  try_entry vid pid name s =
      if starts_with (codes "uhid") name
      then (let (fd, s') = sys.open_file (take 255 (codes "/dev/" ++ name)) s in
          elim fd [ none ↦ some (none, s') | some fd' ↦ check_info vid pid fd' s' ])
      else some (none, s)

  unfoldable pub search_entries : ℕ → ℕ → List Bytes → S → Option (Option ℕ × S)
  search_entries vid pid [] s = some (none, sys.closedir s)
  search_entries vid pid (name ∷ names) s = try_entry vid pid name s >>= λ (fd, s'). elim fd [
    | none ↦ search_entries vid pid names s'
    | some fd' ↦ some (some fd', s')
  ]

  unfoldable pub open_usb_device : ℕ → ℕ → S → Option (Option ℕ × S)
  open_usb_device vid pid s =
      let (dir, s') = sys.opendir s in
      if dir then search_entries vid pid (sys.entries s') s' else some (none, s')

  unfoldable pub open_either : ℕ → S → Option (Option ℕ × S)
  open_either pid s = open_usb_device 0x16C0 pid s >>= λ (fd, s'). elim fd [
    | none ↦ open_usb_device 0x03eb 0x2067 s'
    | some fd' ↦ some (some fd', s')
  ]

  unfoldable pub close_fd : Option ℕ → S → S
  close_fd none s = s
  close_fd (some fd) s = sys.close fd s

  unfoldable pub teensy_close : Session S → Session S
  teensy_close st = record { unix = close_fd st.uhid_teensy_fd st.unix; uhid_teensy_fd = none }

  unfoldable pub teensy_open : Session S → Option (Bool × Session S)
  teensy_open st = open_either 0x0478 (teensy_close st).unix >>= λ (fd, s).
      some (is_some fd, record { unix = s; uhid_teensy_fd = fd })

  -- The timeout is not used; the file descriptor is not tested.
  unfoldable pub teensy_write : Session S → Bytes → Bool → Bool × Session S
  teensy_write st buf long =
      let (r, s) = sys.write st.uhid_teensy_fd buf st.unix in
      (all_written r buf, record st { unix = s })

  unfoldable pub reboot_fd : ℕ → S → Bool × S
  reboot_fd fd s =
      let (r, s') = sys.write (some fd) (codes "reboot") s in
      (all_written r (codes "reboot"), sys.close fd (sys.delay s'))

  unfoldable pub hard_reboot : Session S → Option (Bool × Session S)
  hard_reboot st = open_either 0x0477 st.unix >>= λ (fd, s). elim fd [
    | none ↦ some (false, record st { unix = s })
    | some fd' ↦ (let (r, s') = reboot_fd fd' s in some (r, record st { unix = s' }))
  ]

  -- What the main program sees, with files.
  abbrev pub uhid_host : (Bytes → Session S → Option Bytes) → Host (Session S)
  uhid_host content = record {
    teensy = record { write = teensy_write };
    teensy_open = λ st. or_exit (teensy_open st);
    teensy_close = teensy_close;
    hard_reboot = λ st. or_exit (hard_reboot st);
    delay = λ st. record st { unix = sys.delay st.unix };
    content = content;
  }
