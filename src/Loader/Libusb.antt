-- ===== src/Loader/Libusb.antt =====
-- hid_bootloader_cli.c with USE_LIBUSB: the functions that reach the device, over an interface of
-- the libusb library.
pub mod Handles
pub mod Closed
use iss_notify_firmware.Common.{
  ℕ, Bool, true, false, ◌&&◌, not, Option, none, some, List, [], ◌∷◌, ◌++◌, Bytes, codes, ◌==◌,
  if◌then◌else◌, is_some,
}
use iss_notify_firmware.Loader.Program.{Teensy}
use iss_notify_firmware.Loader.Main.{Host, went}

-- A device on a bus, and its descriptor's two numbers.
pub record UsbDevice : Type 0 where
  pub number : ℕ
  pub id_vendor : ℕ
  pub id_product : ℕ

-- The library, over an abstract state `S`, with handles `H`. A flag says that the result of a call
-- is not negative.
pub record LibusbLibrary (S H : Type 0) : Type 0 where
  pub usb_init : S → S
  pub usb_find_busses : S → S
  pub usb_find_devices : S → S
  pub busses : S → List (List UsbDevice)
  pub usb_open : UsbDevice → S → Option H × S
  -- Is `LIBUSB_HAS_GET_DRIVER_NP` defined?
  pub has_get_driver_np : Bool
  pub usb_get_driver_np : H → S → Bool × S
  pub usb_detach_kernel_driver_np : H → S → Bool × S
  pub usb_claim_interface : H → S → Bool × S
  pub usb_release_interface : H → S → S
  pub usb_close : H → S → S
  -- Request type 0x21, request 9, value 0x0200, index 0; the bytes, and the time in milliseconds.
  pub usb_control_msg : H → Bytes → ℕ → S → Bool × S

-- The library's state and `libusb_teensy_handle`.
pub record Session (S H : Type 0) : Type 0 where
  pub usb : S
  pub libusb_teensy_handle : Option H

module _ {S H : Type 0} (lib : LibusbLibrary S H) where
  -- The kernel's driver is detached if there is one; false after a failure, for which the handle
  -- is closed.
  unfoldable pub detach_driver : H → S → Bool × S
  detach_driver h s =
      if lib.has_get_driver_np
      then (let (driven, s') = lib.usb_get_driver_np h s in
          if driven
          then (let (detached, s'') = lib.usb_detach_kernel_driver_np h s' in
              if detached then (true, s'') else (false, lib.usb_close h s''))
          else (true, s'))
      else (true, s)

  unfoldable pub claim : H → S → Option H × S
  claim h s =
      let (claimed, s') = lib.usb_claim_interface h s in
      if claimed then (some h, s') else (none, lib.usb_close h s')

  -- Behind a successful `usb_open`.
  unfoldable pub take_device : H → S → Option H × S
  take_device h s = let (free, s') = detach_driver h s in if free then claim h s' else (none, s')

  unfoldable pub try_open : UsbDevice → S → Option H × S
  try_open dev s =
      let (h, s') = lib.usb_open dev s in elim h [ none ↦ (none, s') | some h' ↦ take_device h' s' ]

  -- The body of the inner loop: a handle ends the loop.
  unfoldable pub try_device : ℕ → ℕ → UsbDevice → S → Option H × S
  try_device vid pid dev s =
      if dev.id_vendor == vid && dev.id_product == pid then try_open dev s else (none, s)

  unfoldable pub search_bus : ℕ → ℕ → List UsbDevice → S → Option H × S
  search_bus vid pid [] s = (none, s)
  search_bus vid pid (dev ∷ devices) s =
      let (h, s') = try_device vid pid dev s in
      elim h [ none ↦ search_bus vid pid devices s' | some h' ↦ (some h', s') ]

  unfoldable pub search_busses : ℕ → ℕ → List (List UsbDevice) → S → Option H × S
  search_busses vid pid [] s = (none, s)
  search_busses vid pid (bus ∷ rest) s =
      let (h, s') = search_bus vid pid bus s in
      elim h [ none ↦ search_busses vid pid rest s' | some h' ↦ (some h', s') ]

  unfoldable pub open_usb_device : ℕ → ℕ → S → Option H × S
  open_usb_device vid pid s =
      let s' = lib.usb_find_devices (lib.usb_find_busses (lib.usb_init s)) in
      search_busses vid pid (lib.busses s') s'

  -- The boot loader's own numbers, and then those of LUFA's.
  unfoldable pub open_either : ℕ → S → Option H × S
  open_either pid s =
      let (h, s') = open_usb_device 0x16C0 pid s in
      elim h [ none ↦ open_usb_device 0x03eb 0x2067 s' | some h' ↦ (some h', s') ]

  unfoldable pub release_handle : H → S → S
  release_handle h s = lib.usb_close h (lib.usb_release_interface h s)

  unfoldable pub close_held : Option H → S → S
  close_held none s = s
  close_held (some h) s = release_handle h s

  unfoldable pub teensy_close : Session S H → Session S H
  teensy_close st = record {
    usb = close_held st.libusb_teensy_handle st.usb;
    libusb_teensy_handle = none;
  }

  unfoldable pub teensy_open : Session S H → Bool × Session S H
  teensy_open st =
      let (h, s) = open_either 0x0478 (teensy_close st).usb in
      (is_some h, record { usb = s; libusb_teensy_handle = h })

  unfoldable pub write_handle : Option H → Bytes → ℕ → S → Bool × S
  write_handle none buf timeout s = (false, s)
  write_handle (some h) buf timeout s = lib.usb_control_msg h buf timeout s

  -- The flag stands for the timeout: 3.0 or 0.25 seconds.
  unfoldable pub teensy_write : Session S H → Bytes → Bool → Bool × Session S H
  teensy_write st buf long =
      let (r, s) = write_handle st.libusb_teensy_handle buf (if long then 3000 else 250) st.usb in
      (r, record st { usb = s })

  unfoldable pub reboot_handle : H → S → Bool × S
  reboot_handle h s =
      let (r, s') = lib.usb_control_msg h (codes "reboot") 100 s in (r, release_handle h s')

  unfoldable pub hard_reboot : Session S H → Bool × Session S H
  hard_reboot st =
      let (rebootor, s) = open_either 0x0477 st.usb in
      elim rebootor [
        | none ↦ (false, record st { usb = s })
        | some h ↦ (let (r, s') = reboot_handle h s in (r, record st { usb = s' }))
      ]

  -- What the main program sees, with a delay and files.
  abbrev pub libusb_host :
      (Session S H → Session S H) → (Bytes → Session S H → Option Bytes) → Host (Session S H)
  libusb_host delay content = record {
    teensy = record { write = teensy_write };
    teensy_open = λ st. some (went (teensy_open st));
    teensy_close = teensy_close;
    hard_reboot = λ st. some (went (hard_reboot st));
    delay = delay;
    content = content;
  }
