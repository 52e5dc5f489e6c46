-- ===== src/Tests/Interfaces.antt =====
-- The boot loader's host application on a small Windows and a small IOKit.
use iss_notify_firmware.Common.{
  ℕ, true, false, Option, none, some, some-injective, sym, inr, List, [], ◌∷◌, Bytes, codes, ◌≡◌,
  refl, ap, drop, ◌==◌, ◌≤◌, if◌then◌else◌, arith,
}
use iss_notify_firmware.Loader.{any_masked, ihex_bytes_within_range, copy_bytes, ihex_get_data}
use iss_notify_firmware.Loader.Hex.{
  read_intel_hex, read_lines, read_line, fgets, c_string, parse_hex_line, parse_fields, line_fields,
  line_body, data_line, load_bytes, store_byte, check_sum,
}
use iss_notify_firmware.Loader.Hex.Digits.{hex_byte, hex_char}
use iss_notify_firmware.Loader.Sscanf.{
  sscanf_hex, scan_signed, scan_prefixed, scan_hex_digits, read_hex, hex_value,
}
use iss_notify_firmware.Stdio.Scan.{skip_space}
use iss_notify_firmware.Loader.Hex.File.{hex_file}
use iss_notify_firmware.Loader.Options.{
  starts_with, same_text, family, sizes, set_mcu, parse_flag, parse_option, parse_options,
}
use iss_notify_firmware.Loader.Program.{block_address, write_block, program_block, program}
use iss_notify_firmware.Loader.Main.{
  went, read_file, read_again, boot, program_device, serve, main_with, main, open_device,
}
use iss_notify_firmware.Loader.Iokit
use iss_notify_firmware.Loader.Iokit.{
  UsbEntry, Event, attached, Framework, vendor_id, product_id, iokit_host, open_entry, close_entry,
  close_usb_device, init_hid_manager, create_manager, set_up_manager, open_manager, do_run_loop,
  handle_all, handle, attach_callback, attach_device, number_property, append_entry,
}
use iss_notify_firmware.Loader.Iokit.Devices.{OpenDevices}
use iss_notify_firmware.Loader.Iokit.Closed.{iokit_main-closed}
use iss_notify_firmware.Loader.Win32
use iss_notify_firmware.Loader.Win32.{Windows, wait_object, win32_host}
use iss_notify_firmware.Loader.Win32.Search
use iss_notify_firmware.Loader.Win32.Closed.{win32_main-closed}
use iss_notify_firmware.Loader.Win32.Files.{Opened, Rebooted, win32_session-Owned}

abbrev forget : ℕ → List ℕ → List ℕ
forget h s = drop 1 s

forget_lem : (h : ℕ) (s rest : List ℕ) → s ≡ h ∷ rest → forget h s ≡ rest
forget_lem h s rest e = ap (drop 1) e

-- One interface, with a boot loader. The state is the list of the open files.
abbrev windows : Windows (List ℕ)
windows = record {
  get_class_devs = λ s. (some 1, s);
  destroy_list = λ info s. s;
  enum_interfaces = λ info index s. (if index == 0 then some 5 else none, s);
  required_size = λ info iface s. (20, s);
  malloc = λ size s. (some 6, s);
  free = λ details s. s;
  interface_detail = λ info iface size s. (some (codes "hid"), s);
  create_file = λ path s. (some 7, 7 ∷ s);
  get_attributes = λ h s. (some (0x16C0, 0x0478), s);
  close_handle = forget;
  create_event = λ s. (some 8, s);
  reset_event_address = λ s. s;
  write_file = λ h event buf s. (true, s);
  io_pending = λ s. false;
  wait_for = λ event timeout s. (wait_object, s);
  cancel_io = λ h s. s;
  overlapped_result = λ h s. (some 9, s);
}

path_opens :
    (s : List ℕ) (h : ℕ) → ◌≡◌ {A = Option ℕ} (some 7) (some h) → ◌≡◌ {A = List ℕ} (7 ∷ s) (h ∷ s)
path_opens s h e = cc

path_fails : (s : List ℕ) → ◌≡◌ {A = Option ℕ} (some 7) none → ◌≡◌ {A = List ℕ} (7 ∷ s) s
path_fails s e = absurd (cc)

one_interface :
    (index : ℕ) → 1 ≤ index → ◌≡◌ {A = Option ℕ} (if index == 0 then some 5 else none) none
one_interface index le = ground arith

abbrev windows_files : Search.FileTable windows
windows_files = record {
  held = λ s. s;
  limit = 1;
  ends = λ info index s le. one_interface index le;
  lists = λ s. refl;
  destroys = λ info s. refl;
  enumerates = λ info index s. refl;
  measures = λ info iface s. refl;
  allocates = λ size s. refl;
  frees = λ details s. refl;
  details = λ info iface size s. refl;
  opens = λ path s h e. path_opens s h e;
  fails = λ path s e. path_fails s e;
  attributes = λ h s. refl;
  closes = forget_lem;
  events = λ s. refl;
  resets = λ s. refl;
  writes = λ h event buf s. refl;
  waits = λ event timeout s. refl;
  cancels = λ h s. refl;
  results = λ h s. refl;
}

abbrev windows_session : Win32.Session (List ℕ)
windows_session = record { system = 3 ∷ []; win32_teensy_handle = some 3; event = none }

win32_session-Owned_example :
    Opened windows windows_files (Win32.teensy_open windows 2 windows_session)
    × ((Win32.teensy_close windows windows_session).system ≡ [])
    × ((Win32.teensy_write windows windows_session (1 ∷ []) true).1.system ≡ 3 ∷ [])
    × Rebooted windows windows_files (some 3) (Win32.hard_reboot windows 2 windows_session)
unfolding Win32.teensy_write Win32.write_usb_device Win32.write_with
win32_session-Owned_example =
    win32_session-Owned windows windows_files 2 windows_session (1 ∷ []) true (omega arith) refl

abbrev win32_closed : Win32.Session (List ℕ)
win32_closed = record { system = []; win32_teensy_handle = none; event = some 8 }

abbrev lamp_file : Bytes → Win32.Session (List ℕ) → Option Bytes
lamp_file name d = some (hex_file ((0x10, 1 ∷ 2 ∷ []) ∷ []))

abbrev arguments : List Bytes
arguments = codes "-mmcu=atmega8u2" ∷ codes "-n" ∷ codes "lamp.hex" ∷ []

win32_run :
    main (win32_host windows 2 (λ st. st) lamp_file) 1 arguments windows_session
    ≡ some (went win32_closed)
unfolding main main_with serve read_file read_again program_device boot open_device program
    program_block write_block block_address any_masked ihex_bytes_within_range copy_bytes
    ihex_get_data read_intel_hex parse_options parse_option parse_flag set_mcu family sizes
    same_text starts_with hex_byte hex_char sscanf_hex scan_signed scan_prefixed scan_hex_digits
    read_hex hex_value skip_space read_lines read_line fgets c_string parse_hex_line parse_fields
    line_fields line_body data_line load_bytes store_byte check_sum Win32.teensy_open
    Win32.teensy_close Win32.teensy_write Win32.write_usb_device Win32.write_with Win32.send_buffer
    Win32.written Win32.open_either Win32.open_usb_device Win32.search_interfaces
    Win32.try_interface Win32.read_details Win32.open_path Win32.check_attributes Win32.close_option
win32_run = refl

win32_main-closed_example : (win32_closed.system ≡ []) × (win32_closed.win32_teensy_handle ≡ none)
win32_main-closed_example =
    win32_main-closed windows windows_files 2 1 (λ st. st) lamp_file arguments windows_session
      win32_closed (omega arith) (λ x o. o) refl win32_run

-- A device, a boot loader, that is attached at each run. The state is the device that is open.
abbrev framework : Framework (Option ℕ) ℕ
framework = record {
  get_property = λ dev key. some (elim key [ vendor_id ↦ 0x16C0 | product_id ↦ 0x0478 ]);
  is_number = λ t. true;
  get_value = λ t. some t;
  malloc = λ s. (true, s);
  manager_create = λ s. (some (1, true), s);
  release = λ m s. s;
  dictionary_create = λ s. (some 2, s);
  set_matching = λ m d s. s;
  schedule = λ m s. s;
  register_callbacks = λ m s. s;
  manager_open = λ m s. (true, s);
  unschedule = λ m s. s;
  run_loop = λ s. (attached (some 5) ∷ [], s);
  device_open = λ dev s. (true, some dev);
  device_close = λ dev s. none;
  set_report = λ dev buf s. (true, s);
}

nothing_open : (x : ℕ) → ¬ ◌≡◌ {A = Option ℕ} none (some x)
nothing_open x e = cc

abbrev devices : OpenDevices framework
devices = record {
  Open = λ s x. s ≡ some x;
  allocates = λ s x o. o;
  creates = λ s x o. o;
  releases = λ m s x o. o;
  makes = λ s x o. o;
  matches = λ m dict s x o. o;
  schedules = λ m s x o. o;
  registers = λ m s x o. o;
  manages = λ m s x o. o;
  unschedules = λ m s x o. o;
  runs = λ s x o. (o, refl);
  opens = λ dev s x o. inr (refl, sym (some-injective _ _ o));
  closes = λ dev s x o. absurd (nothing_open x o);
  reports = λ dev buf s x o. o;
}

abbrev five : UsbEntry
five = record { ref = 5; pid = 0x0478; vid = 0x16C0 }

abbrev iokit_start : Iokit.Session (Option ℕ)
iokit_start = record {
  system = none;
  usb_list = [];
  hid_manager = none;
  iokit_teensy_reference = none;
}

abbrev iokit_end : Iokit.Session (Option ℕ)
iokit_end = record iokit_start { usb_list = five ∷ five ∷ []; hid_manager = some 1 }

abbrev iokit_file : Bytes → Iokit.Session (Option ℕ) → Option Bytes
iokit_file name d = some (hex_file ((0x10, 1 ∷ 2 ∷ []) ∷ []))

iokit_run :
    main (iokit_host framework (λ st. st) iokit_file) 1 arguments iokit_start
    ≡ some (went iokit_end)
unfolding main main_with serve read_file read_again program_device boot open_device program
    program_block write_block block_address any_masked ihex_bytes_within_range copy_bytes
    ihex_get_data read_intel_hex parse_options parse_option parse_flag set_mcu family sizes
    same_text starts_with hex_byte hex_char sscanf_hex scan_signed scan_prefixed scan_hex_digits
    read_hex hex_value skip_space read_lines read_line fgets c_string parse_hex_line parse_fields
    line_fields line_body data_line load_bytes store_byte check_sum Iokit.teensy_open
    Iokit.teensy_close Iokit.teensy_write Iokit.open_either Iokit.open_usb_device open_entry
    close_entry close_usb_device init_hid_manager create_manager set_up_manager open_manager
    do_run_loop handle_all handle attach_callback attach_device number_property append_entry
iokit_run = refl

iokit_main-closed_example :
    ((x : ℕ) → ¬ (iokit_end.system ≡ some x)) × (iokit_end.iokit_teensy_reference ≡ none)
iokit_main-closed_example =
    iokit_main-closed framework devices (λ st. st) iokit_file 1 arguments iokit_start iokit_end
      (λ x o. o) (record { known = λ x o. absurd (nothing_open x o); variable = refl }) iokit_run
