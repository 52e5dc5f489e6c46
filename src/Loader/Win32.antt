-- ===== src/Loader/Win32.antt =====
-- hid_bootloader_cli.c with USE_WIN32: the functions that reach the device, over an interface of
-- the Windows calls. A handle is a number; an invalid one is `none`.
pub mod Search
pub mod Writes
pub mod Files
pub mod Closed
use iss_notify_firmware.Common.{
  ℕ, zero, suc, ◌+◌, Bool, false, ◌||◌, not, Option, none, some, ◌∷◌, Bytes, codes, ◌==◌, ltb,
  if◌then◌else◌, is_some, ◌>>=◌, length,
}
use iss_notify_firmware.Loader.Program.{Teensy}
use iss_notify_firmware.Loader.Main.{Host, Result, went}

-- What `WaitForSingleObject` returns.
pub data Wait : Type 0 where
  wait_timeout wait_object wait_other : Wait

-- The calls, over an abstract state `S`.
pub record Windows (S : Type 0) : Type 0 where
  pub get_class_devs : S → Option ℕ × S
  pub destroy_list : ℕ → S → S
  -- The interface with a number, if there is one.
  pub enum_interfaces : ℕ → ℕ → S → Option ℕ × S
  pub required_size : ℕ → ℕ → S → ℕ × S
  pub malloc : ℕ → S → Option ℕ × S
  pub free : ℕ → S → S
  -- The path of the interface's device, for a size.
  pub interface_detail : ℕ → ℕ → ℕ → S → Option Bytes × S
  pub create_file : Bytes → S → Option ℕ × S
  -- Vendor and product.
  pub get_attributes : ℕ → S → Option (ℕ × ℕ) × S
  pub close_handle : ℕ → S → S
  pub create_event : S → Option ℕ × S
  -- `ResetEvent(&event)`, with the address of the variable.
  pub reset_event_address : S → S
  pub write_file : ℕ → ℕ → Bytes → S → Bool × S
  -- `GetLastError() == ERROR_IO_PENDING`
  pub io_pending : S → Bool
  pub wait_for : ℕ → ℕ → S → Wait × S
  pub cancel_io : ℕ → S → S
  -- The number of bytes that have gone.
  pub overlapped_result : ℕ → S → Option ℕ × S

-- The system's state, `win32_teensy_handle` and the static variable `event`.
pub record Session (S : Type 0) : Type 0 where
  pub system : S
  pub win32_teensy_handle : Option ℕ
  pub event : Option ℕ

-- A result, if the fuel is enough.
abbrev pub in_time : {A : Type 0} → Option A → Option (Result A)
in_time none = none
in_time (some a) = some (went a)

module _ {S : Type 0} (sys : Windows S) where
  -- An open file is kept if it is the wanted device, with the list freed; else it is closed.
  unfoldable pub check_attributes : ℕ → ℕ → ℕ → ℕ → S → Option ℕ × S
  check_attributes vid pid info h s =
      let (attrib, s') = sys.get_attributes h s in
      elim attrib [
        | none ↦ (none, sys.close_handle h s')
        | some (vendor, product) ↦
            (if not (vendor == vid) || not (product == pid)
              then (none, sys.close_handle h s')
              else (some h, sys.destroy_list info s'))
      ]

  unfoldable pub open_path : ℕ → ℕ → ℕ → ℕ → Bytes → S → Option ℕ × S
  open_path vid pid info details path s =
      let (h, s') = sys.create_file path s in
      let s'' = sys.free details s' in
      elim h [ none ↦ (none, s'') | some h' ↦ check_attributes vid pid info h' s'' ]

  unfoldable pub read_details : ℕ → ℕ → ℕ → ℕ → ℕ → ℕ → S → Option ℕ × S
  read_details vid pid info iface size details s =
      let (path, s') = sys.interface_detail info iface size s in
      elim path [
        | none ↦ (none, sys.free details s')
        | some path' ↦ open_path vid pid info details path' s'
      ]

  -- The body of the loop for an interface.
  unfoldable pub try_interface : ℕ → ℕ → ℕ → ℕ → S → Option ℕ × S
  try_interface vid pid info iface s =
      let (size, s') = sys.required_size info iface s in
      let (details, s'') = sys.malloc size s' in
      elim details [
        | none ↦ (none, s'')
        | some details' ↦ read_details vid pid info iface size details' s''
      ]

  -- `for (index=0; 1; index++)`; `none` is a loop of more rounds than the fuel.
  unfoldable pub search_interfaces : ℕ → ℕ → ℕ → ℕ → ℕ → S → Option (Option ℕ × S)
  search_interfaces zero vid pid info index s = none
  search_interfaces (suc fuel) vid pid info index s =
      let (iface, s') = sys.enum_interfaces info index s in
      elim iface [
        | none ↦ some (none, sys.destroy_list info s')
        | some iface' ↦
            (let (h, s'') = try_interface vid pid info iface' s' in
              elim h [
                | none ↦ search_interfaces fuel vid pid info (index + 1) s''
                | some h' ↦ some (some h', s'')
              ])
      ]

  unfoldable pub open_usb_device : ℕ → ℕ → ℕ → S → Option (Option ℕ × S)
  open_usb_device fuel vid pid s =
      let (info, s') = sys.get_class_devs s in
      elim info [ none ↦ some (none, s') | some info' ↦ search_interfaces fuel vid pid info' 0 s' ]

  -- `write_usb_device` from `GetOverlappedResult` on.
  unfoldable pub written : ℕ → S → Bool × S
  written h s =
      let (n, s') = sys.overlapped_result h s in
      elim n [ none ↦ (false, s') | some n' ↦ (ltb 0 n', s') ]

  -- Behind a `WriteFile` that has not ended at once.
  unfoldable pub await : ℕ → ℕ → ℕ → S → Bool × S
  await h event timeout s =
      if sys.io_pending s
      then (let (r, s') = sys.wait_for event timeout s in
          elim r [
            | wait_timeout ↦ (false, sys.cancel_io h s')
            | wait_object ↦ written h s'
            | wait_other ↦ (false, s')
          ])
      else (false, s)

  unfoldable pub send_buffer : ℕ → ℕ → Bytes → ℕ → S → Bool × S
  send_buffer h event buf timeout s =
      let (ok, s') = sys.write_file h event (0 ∷ buf) (sys.reset_event_address s) in
      if ok then written h s' else await h event timeout s'

  -- With the event that there is, or a new one.
  unfoldable pub write_with : Option ℕ → ℕ → Bytes → ℕ → Session S → Bool × Session S
  write_with (some event) h buf timeout st =
      let (r, s) = send_buffer h event buf timeout st.system in (r, record st { system = s })
  write_with none h buf timeout st =
      let (created, s) = sys.create_event st.system in
      elim created [
        | none ↦ (false, record st { system = s })
        | some event ↦
            (let (r, s') = send_buffer h event buf timeout s in
              (r, record st { system = s'; event = some event }))
      ]

  -- `len > sizeof(tmpbuf) - 1`
  unfoldable pub write_usb_device : ℕ → Bytes → ℕ → Session S → Bool × Session S
  write_usb_device h buf timeout st =
      if ltb 1039 (length buf) then (false, st) else write_with st.event h buf timeout st

  unfoldable pub close_option : Option ℕ → S → S
  close_option none s = s
  close_option (some h) s = sys.close_handle h s

  unfoldable pub teensy_close : Session S → Session S
  teensy_close st = record st {
    system = close_option st.win32_teensy_handle st.system;
    win32_teensy_handle = none;
  }

  unfoldable pub open_either : ℕ → ℕ → S → Option (Option ℕ × S)
  open_either fuel pid s = open_usb_device fuel 0x16C0 pid s >>= λ (h, s'). elim h [
    | none ↦ open_usb_device fuel 0x03eb 0x2067 s'
    | some h' ↦ some (some h', s')
  ]

  unfoldable pub teensy_open : ℕ → Session S → Option (Bool × Session S)
  teensy_open fuel st = open_either fuel 0x0478 (teensy_close st).system >>= λ (h, s).
      some (is_some h, record st { system = s; win32_teensy_handle = h })

  unfoldable pub teensy_write : Session S → Bytes → Bool → Bool × Session S
  teensy_write st buf long = elim st.win32_teensy_handle [
    | none ↦ (false, st)
    | some h ↦ write_usb_device h buf (if long then 3000 else 250) st
  ]

  unfoldable pub close_after : ℕ → Bool × Session S → Bool × Session S
  close_after h (r, st) = (r, record st { system = sys.close_handle h st.system })

  unfoldable pub hard_reboot : ℕ → Session S → Option (Bool × Session S)
  hard_reboot fuel st = open_either fuel 0x0477 st.system >>= λ (h, s). elim h [
    | none ↦ some (false, record st { system = s })
    | some h' ↦
        some (close_after h' (write_usb_device h' (codes "reboot") 100 (record st { system = s })))
  ]

  -- What the main program sees, with the fuel of a search, a delay and files.
  abbrev pub win32_host :
      ℕ → (Session S → Session S) → (Bytes → Session S → Option Bytes) → Host (Session S)
  win32_host fuel delay content = record {
    teensy = record { write = teensy_write };
    teensy_open = λ st. in_time (teensy_open fuel st);
    teensy_close = teensy_close;
    hard_reboot = λ st. in_time (hard_reboot fuel st);
    delay = delay;
    content = content;
  }
