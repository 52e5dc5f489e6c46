-- ===== src/Loader/Iokit.antt =====
-- hid_bootloader_cli.c with USE_APPLE_IOKIT: the list of the attached devices, which two callbacks
-- keep, and the functions that reach one of them. A reference to a device is a number, not 0.
pub mod Attached
pub mod Devices
pub mod Steps
pub mod Entries
pub mod Closed
use iss_notify_firmware.Common.{
  ℕ, Bool, true, false, ◌&&◌, Option, none, some, List, [], ◌∷◌, ◌++◌, Bytes, codes, ◌==◌,
  if◌then◌else◌, is_some, ◌>>=◌,
}
use iss_notify_firmware.Loader.Program.{Teensy}
use iss_notify_firmware.Loader.Main.{Host, went}

-- `struct usb_list_struct`
pub record UsbEntry : Type 0 where
  pub ref : ℕ
  pub pid : ℕ
  pub vid : ℕ

-- The keys of the properties that are asked for.
pub data Key : Type 0 where
  vendor_id product_id : Key

-- A callback that the run loop makes, with its device.
pub data Event : Type 0 where
  attached detached : Option ℕ → Event

-- The system, over an abstract state `S`, with values `T` of properties. The properties of a
-- device are the same at each call.
pub record Framework (S T : Type 0) : Type 0 where
  pub get_property : ℕ → Key → Option T
  pub is_number : T → Bool
  pub get_value : T → Option ℕ
  -- Is there memory for an entry?
  pub malloc : S → Bool × S
  -- A new manager, and whether it is one.
  pub manager_create : S → Option (ℕ × Bool) × S
  pub release : ℕ → S → S
  pub dictionary_create : S → Option ℕ × S
  pub set_matching : ℕ → ℕ → S → S
  pub schedule : ℕ → S → S
  pub register_callbacks : ℕ → S → S
  pub manager_open : ℕ → S → Bool × S
  pub unschedule : ℕ → S → S
  -- The callbacks made until a call of the run loop handles nothing.
  pub run_loop : S → List Event × S
  pub device_open : ℕ → S → Bool × S
  pub device_close : ℕ → S → S
  pub set_report : ℕ → Bytes → S → Bool × S

-- The system's state and the file's static variables.
pub record Session (S : Type 0) : Type 0 where
  pub system : S
  pub usb_list : List UsbEntry
  pub hid_manager : Option ℕ
  pub iokit_teensy_reference : Option ℕ

-- `p->next = n` at the last entry, or `usb_list = n`.
unfoldable pub append_entry : UsbEntry → List UsbEntry → List UsbEntry
append_entry n [] = n ∷ []
append_entry n (p ∷ ps) = p ∷ append_entry n ps

-- The loop of `detach_callback`.
unfoldable pub remove_entries : ℕ → List UsbEntry → List UsbEntry
remove_entries dev [] = []
remove_entries dev (p ∷ ps) =
    if p.ref == dev then remove_entries dev ps else p ∷ remove_entries dev ps

module _ {S T : Type 0} (sys : Framework S T) where
  -- The value of a property, if it is a number that can be read.
  unfoldable pub number_property : ℕ → Key → Option ℕ
  number_property dev key =
      sys.get_property dev key >>= λ type. if sys.is_number type then sys.get_value type else none

  unfoldable pub attach_device : ℕ → Session S → Session S
  attach_device dev st = elim (number_property dev vendor_id) [
    | none ↦ st
    | some vid ↦ elim (number_property dev product_id) [
      | none ↦ st
      | some pid ↦
          (let (room, s) = sys.malloc st.system in
            if room
            then record st {
              system = s;
              usb_list = append_entry (record { ref = dev; pid = pid; vid = vid }) st.usb_list;
            }
            else record st { system = s })
    ]
  ]

  unfoldable pub attach_callback : Option ℕ → Session S → Session S
  attach_callback none st = st
  attach_callback (some dev) st = attach_device dev st

  -- No entry has the reference 0.
  unfoldable pub detach_callback : Option ℕ → Session S → Session S
  detach_callback none st = st
  detach_callback (some dev) st = record st { usb_list = remove_entries dev st.usb_list }

  unfoldable pub handle : Event → Session S → Session S
  handle (attached dev) st = attach_callback dev st
  handle (detached dev) st = detach_callback dev st

  unfoldable pub handle_all : List Event → Session S → Session S
  handle_all [] st = st
  handle_all (e ∷ es) st = handle_all es (handle e st)

  unfoldable pub do_run_loop : Session S → Session S
  do_run_loop st =
      let (events, s) = sys.run_loop st.system in handle_all events (record st { system = s })

  -- Behind the creation of the dictionary. A manager that cannot be opened is released, and the
  -- variable keeps it.
  unfoldable pub open_manager : ℕ → ℕ → S → S
  open_manager manager dict s =
      let s' =
        sys.register_callbacks manager
          (sys.schedule manager (sys.release dict (sys.set_matching manager dict s))) in
      let (ok, s'') = sys.manager_open manager s' in
      if ok then s'' else sys.release manager (sys.unschedule manager s'')

  unfoldable pub set_up_manager : ℕ → Session S → Session S
  set_up_manager manager st =
      let (dict, s) = sys.dictionary_create st.system in
      elim dict [
        | none ↦ record st { system = s; hid_manager = some manager }
        | some dict' ↦ record st {
          system = open_manager manager dict' s;
          hid_manager = some manager;
        }
      ]

  -- The second flag says that the object is a manager; one that is none is released, and kept too.
  unfoldable pub create_manager : Session S → Session S
  create_manager st =
      let (created, s) = sys.manager_create st.system in
      elim created [
        | none ↦ record st { system = s; hid_manager = none }
        | some (manager, proper) ↦
            (if proper
              then set_up_manager manager (record st { system = s })
              else record st { system = sys.release manager s; hid_manager = some manager })
      ]

  unfoldable pub init_hid_manager : Session S → Session S
  init_hid_manager st = elim st.hid_manager [ none ↦ create_manager st | some manager ↦ st ]

  -- The loop of `open_usb_device`.
  unfoldable pub open_entry : ℕ → ℕ → List UsbEntry → S → Option ℕ × S
  open_entry vid pid [] s = (none, s)
  open_entry vid pid (p ∷ ps) s = elim (p.vid == vid && p.pid == pid) [
    | false ↦ open_entry vid pid ps s
    | true ↦
        (let (ok, s') = sys.device_open p.ref s in
          elim ok [ true ↦ (some p.ref, s') | false ↦ open_entry vid pid ps s' ])
  ]

  unfoldable pub open_usb_device : ℕ → ℕ → Session S → Option ℕ × Session S
  open_usb_device vid pid st =
      let st' = do_run_loop (init_hid_manager st) in
      let (dev, s) = open_entry vid pid st'.usb_list st'.system in (dev, record st' { system = s })

  -- The loop of `close_usb_device`: a device that is not attached any more is not closed.
  unfoldable pub close_entry : ℕ → List UsbEntry → S → S
  close_entry dev [] s = s
  close_entry dev (p ∷ ps) s =
      let rest = close_entry dev ps s in if p.ref == dev then sys.device_close dev s else rest

  unfoldable pub close_usb_device : ℕ → Session S → Session S
  close_usb_device dev st =
      let st' = do_run_loop st in record st' { system = close_entry dev st'.usb_list st'.system }

  unfoldable pub teensy_close : Session S → Session S
  teensy_close st = elim st.iokit_teensy_reference [
    | none ↦ st
    | some dev ↦ record (close_usb_device dev st) { iokit_teensy_reference = none }
  ]

  unfoldable pub open_either : ℕ → Session S → Option ℕ × Session S
  open_either pid st =
      let (dev, st') = open_usb_device 0x16C0 pid st in
      elim dev [ none ↦ open_usb_device 0x03eb 0x2067 st' | some dev' ↦ (some dev', st') ]

  unfoldable pub teensy_open : Session S → Bool × Session S
  teensy_open st =
      let (dev, st') = open_either 0x0478 (teensy_close st) in
      (is_some dev, record st' { iokit_teensy_reference = dev })

  -- The timeout is not used.
  unfoldable pub teensy_write : Session S → Bytes → Bool → Bool × Session S
  teensy_write st buf long = elim st.iokit_teensy_reference [
    | none ↦ (false, st)
    | some dev ↦ (let (r, s) = sys.set_report dev buf st.system in (r, record st { system = s }))
  ]

  unfoldable pub hard_reboot : Session S → Bool × Session S
  hard_reboot st =
      let (rebootor, st') = open_either 0x0477 st in
      elim rebootor [
        | none ↦ (false, st')
        | some dev ↦
            (let (r, s) = sys.set_report dev (codes "reboot") st'.system in
              (r, close_usb_device dev (record st' { system = s })))
      ]

  -- What the main program sees, with a delay and files.
  abbrev pub iokit_host :
      (Session S → Session S) → (Bytes → Session S → Option Bytes) → Host (Session S)
  iokit_host delay content = record {
    teensy = record { write = teensy_write };
    teensy_open = λ st. some (went (teensy_open st));
    teensy_close = teensy_close;
    hard_reboot = λ st. some (went (hard_reboot st));
    delay = delay;
    content = content;
  }
