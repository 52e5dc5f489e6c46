-- ===== src/Tests/Systems.antt =====
-- The boot loader's host application on small systems.
use iss_notify_firmware.Common.{
  ℕ, true, false, Option, none, some, List, [], ◌∷◌, ◌++◌, Bytes, codes, ◌≡◌, refl, ap, drop,
  length,
}
use iss_notify_firmware.Loader.{any_masked, ihex_bytes_within_range, copy_bytes, ihex_get_data}
use iss_notify_firmware.Loader.Hex.{
  read_intel_hex, read_lines, read_line, fgets, c_string, parse_hex_line, parse_fields, line_fields,
  line_body, data_line, load_bytes, store_byte, check_sum,
}
use iss_notify_firmware.Loader.Hex.Digits.{hex_byte, hex_char}
use iss_notify_firmware.Loader.Sscanf.{
  sscanf_hex, scan_signed, scan_prefixed, scan_hex_digits, read_hex, hex_value,
}
use iss_notify_firmware.Stdio.Scan.{skip_space}
use iss_notify_firmware.Loader.Hex.File.{hex_file}
use iss_notify_firmware.Loader.Options.{
  starts_with, same_text, family, sizes, set_mcu, parse_flag, parse_option, parse_options,
}
use iss_notify_firmware.Loader.Program.{block_address, write_block, program_block, program}
use iss_notify_firmware.Loader.Main.{
  went, read_file, read_again, boot, program_device, serve, main_with, main, open_device,
}
use iss_notify_firmware.Loader.Libusb
use iss_notify_firmware.Loader.Libusb.{
  UsbDevice, LibusbLibrary, libusb_host, teensy_open, teensy_close, teensy_write, write_handle,
  close_held, release_handle, open_either, open_usb_device, search_busses, search_bus, try_device,
  try_open, take_device, detach_driver, claim,
}
use iss_notify_firmware.Loader.Libusb.Handles.{HandleList}
use iss_notify_firmware.Loader.Libusb.Closed.{main-closed}
use iss_notify_firmware.Loader.Uhid
use iss_notify_firmware.Loader.Uhid.{
  Unix, uhid_host, close_fd, search_entries, try_entry, check_info,
}
use iss_notify_firmware.Loader.Uhid.Files.{FileTable}
use iss_notify_firmware.Loader.Uhid.Closed.{uhid_main-closed}
use iss_notify_firmware.Loader.Iokit
use iss_notify_firmware.Loader.Iokit.{
  Event, attached, detached, Framework, Key, vendor_id, handle_all,
}
use iss_notify_firmware.Loader.Iokit.Attached.{survivors, arrivals, handle_all-arrivals}

abbrev forget : ℕ → List ℕ → List ℕ
forget h s = drop 1 s

forget_lem : (h : ℕ) (s rest : List ℕ) → s ≡ h ∷ rest → forget h s ≡ rest
forget_lem h s rest e = ap (drop 1) e

-- A bus with a boot loader, which no driver holds. The state is the list of the open handles.
abbrev library : LibusbLibrary (List ℕ) ℕ
library = record {
  usb_init = λ s. s;
  usb_find_busses = λ s. s;
  usb_find_devices = λ s. s;
  busses = λ s. (record { number = 7; id_vendor = 0x16C0; id_product = 0x0478 } ∷ []) ∷ [];
  usb_open = λ dev s. (some dev.number, dev.number ∷ s);
  has_get_driver_np = true;
  usb_get_driver_np = λ h s. (false, s);
  usb_detach_kernel_driver_np = λ h s. (false, s);
  usb_claim_interface = λ h s. (true, s);
  usb_release_interface = λ h s. s;
  usb_close = forget;
  usb_control_msg = λ h buf t s. (true, s);
}

opens_lem :
    (dev : UsbDevice) (s : List ℕ) (h : ℕ)
    → ◌≡◌ {A = Option ℕ} (some dev.number) (some h)
    → ◌≡◌ {A = List ℕ} (dev.number ∷ s) (h ∷ s)
opens_lem dev s h e = cc

fails_lem :
    (dev : UsbDevice) (s : List ℕ)
    → ◌≡◌ {A = Option ℕ} (some dev.number) none
    → ◌≡◌ {A = List ℕ} (dev.number ∷ s) s
fails_lem dev s e = absurd (cc)

abbrev handles : HandleList library
handles = record {
  held = λ s. s;
  init = λ s. refl;
  find_busses = λ s. refl;
  find_devices = λ s. refl;
  opens = opens_lem;
  fails = fails_lem;
  get_driver = λ h s. refl;
  detach = λ h s. refl;
  claims = λ h s. refl;
  releases = λ h s. refl;
  messages = λ h buf t s. refl;
  closes = forget_lem;
}

abbrev closed : Libusb.Session (List ℕ) ℕ
closed = record { usb = []; libusb_teensy_handle = none }

abbrev content : Bytes → Libusb.Session (List ℕ) ℕ → Option Bytes
content name d = some (hex_file ((0x10, 1 ∷ 2 ∷ []) ∷ []))

abbrev arguments : List Bytes
arguments = codes "-mmcu=atmega8u2" ∷ codes "-n" ∷ codes "lamp.hex" ∷ []

run : main (libusb_host library (λ s. s) content) 1 arguments closed ≡ some (went closed)
unfolding main main_with serve read_file read_again program_device boot open_device program
    program_block write_block block_address any_masked ihex_bytes_within_range copy_bytes
    ihex_get_data read_intel_hex parse_options parse_option parse_flag set_mcu family sizes
    same_text starts_with hex_byte hex_char sscanf_hex scan_signed scan_prefixed scan_hex_digits
    read_hex hex_value skip_space read_lines read_line fgets c_string parse_hex_line parse_fields
    line_fields line_body data_line load_bytes store_byte check_sum teensy_open teensy_close
    teensy_write write_handle close_held release_handle open_either open_usb_device search_busses
    search_bus try_device try_open take_device detach_driver claim
run = refl

main-closed_example : (closed.usb ≡ []) × (closed.libusb_teensy_handle ≡ none)
main-closed_example =
    main-closed library handles (λ s. s) content 1 arguments closed closed (λ x o. o) refl run

-- One uhid file, of a boot loader; the state is the list of the open files.
abbrev unix : Unix (List ℕ)
unix = record {
  opendir = λ s. (true, s);
  entries = λ s. codes "ttya" ∷ codes "uhid0" ∷ [];
  closedir = λ s. s;
  open_file = λ path s. (some 3, 3 ∷ s);
  get_deviceinfo = λ fd s. (some (0x16C0, 0x0478), s);
  close = forget;
  write = λ fd buf s. (some (length buf), s);
  delay = λ s. s;
}

file_opens :
    (path : Bytes) (s : List ℕ) (fd : ℕ)
    → ◌≡◌ {A = Option ℕ} (some 3) (some fd)
    → ◌≡◌ {A = List ℕ} (3 ∷ s) (fd ∷ s)
file_opens path s fd e = cc

file_fails :
    (path : Bytes) (s : List ℕ) → ◌≡◌ {A = Option ℕ} (some 3) none → ◌≡◌ {A = List ℕ} (3 ∷ s) s
file_fails path s e = absurd (cc)

abbrev files : FileTable unix
files = record {
  held = λ s. s;
  opendir = λ s. refl;
  closedir = λ s. refl;
  opens = file_opens;
  fails = file_fails;
  infos = λ fd s. refl;
  writes = λ fd buf s. refl;
  delays = λ s. refl;
  closes = forget_lem;
}

abbrev uhid_closed : Uhid.Session (List ℕ)
uhid_closed = record { unix = []; uhid_teensy_fd = none }

uhid_run :
    main
      (uhid_host unix (λ name d. some (hex_file ((0x10, 1 ∷ 2 ∷ []) ∷ []))))
      1
      arguments
      uhid_closed
    ≡ some (went uhid_closed)
unfolding main main_with serve read_file read_again program_device boot open_device program
    program_block write_block block_address any_masked ihex_bytes_within_range copy_bytes
    ihex_get_data read_intel_hex parse_options parse_option parse_flag set_mcu family sizes
    same_text starts_with hex_byte hex_char sscanf_hex scan_signed scan_prefixed scan_hex_digits
    read_hex hex_value skip_space read_lines read_line fgets c_string parse_hex_line parse_fields
    line_fields line_body data_line load_bytes store_byte check_sum Uhid.teensy_open
    Uhid.teensy_close Uhid.teensy_write close_fd Uhid.open_either Uhid.open_usb_device
    search_entries try_entry check_info
uhid_run = refl

uhid_main-closed_example : (uhid_closed.unix ≡ []) × (uhid_closed.uhid_teensy_fd ≡ none)
uhid_main-closed_example =
    uhid_main-closed unix files (λ name d. some (hex_file ((0x10, 1 ∷ 2 ∷ []) ∷ []))) 1 arguments
      uhid_closed uhid_closed refl uhid_run

-- Devices whose vendor is their own number, and enough memory.
abbrev framework : Framework (List ℕ) ℕ
framework = record {
  get_property = λ dev key. some dev;
  is_number = λ t. true;
  get_value = λ t. some t;
  malloc = λ s. (true, s);
  manager_create = λ s. (some (1, true), s);
  release = λ m s. s;
  dictionary_create = λ s. (some 2, s);
  set_matching = λ m d s. s;
  schedule = λ m s. s;
  register_callbacks = λ m s. s;
  manager_open = λ m s. (true, s);
  unschedule = λ m s. s;
  run_loop = λ s. ([], s);
  device_open = λ dev s. (true, s);
  device_close = λ dev s. s;
  set_report = λ dev buf s. (true, s);
}

abbrev history : List Event
history = attached (some 5) ∷ attached (some 6) ∷ detached (some 5) ∷ attached none ∷ []

abbrev watched : Iokit.Session (List ℕ)
watched = record {
  system = [];
  usb_list = record { ref = 4; pid = 4; vid = 4 } ∷ [];
  hid_manager = some 1;
  iokit_teensy_reference = none;
}

handle_all-arrivals_example :
    (handle_all framework history watched).usb_list
    ≡ survivors history watched.usb_list ++ arrivals framework history
handle_all-arrivals_example = handle_all-arrivals framework history watched (λ s. refl)
