-- ===== src/Loader/Libusb/Handles.antt =====
-- No handle is lost: the open ones are the one that `libusb_teensy_handle` holds.
use iss_notify_firmware.Common.{
  ℕ, Bool, Option, none, some, List, [], ◌∷◌, Bytes, ◌≡◌, refl, ap, ◌∙◌, arith, codes, Option-cases,
  inl, inr, if◌then◌else◌,
}
use iss_notify_firmware.Loader.Libusb.{
  UsbDevice, LibusbLibrary, Session, detach_driver, claim, take_device, try_open, try_device,
  search_bus, search_busses, open_usb_device, open_either, release_handle, close_held, teensy_close,
  teensy_open, write_handle, teensy_write, reboot_handle, hard_reboot,
}

-- The open handles, the newest first: only `usb_open` opens one, only `usb_close` closes it.
pub record HandleList {S H : Type 0} (lib : LibusbLibrary S H) : Type 0 where
  pub held : S → List H
  pub init : (s : S) → held (lib.usb_init s) ≡ held s
  pub find_busses : (s : S) → held (lib.usb_find_busses s) ≡ held s
  pub find_devices : (s : S) → held (lib.usb_find_devices s) ≡ held s
  pub opens :
      (dev : UsbDevice) (s : S) (h : H)
      → (lib.usb_open dev s).0 ≡ some h
      → held (lib.usb_open dev s).1 ≡ h ∷ held s
  pub fails :
      (dev : UsbDevice) (s : S)
      → (lib.usb_open dev s).0 ≡ none
      → held (lib.usb_open dev s).1 ≡ held s
  pub get_driver : (h : H) (s : S) → held (lib.usb_get_driver_np h s).1 ≡ held s
  pub detach : (h : H) (s : S) → held (lib.usb_detach_kernel_driver_np h s).1 ≡ held s
  pub claims : (h : H) (s : S) → held (lib.usb_claim_interface h s).1 ≡ held s
  pub releases : (h : H) (s : S) → held (lib.usb_release_interface h s) ≡ held s
  pub messages :
      (h : H) (buf : Bytes) (t : ℕ) (s : S) → held (lib.usb_control_msg h buf t s).1 ≡ held s
  pub closes : (h : H) (s : S) (rest : List H) → held s ≡ h ∷ rest → held (lib.usb_close h s) ≡ rest

abbrev pub of_option : {H : Type 0} → Option H → List H → List H
of_option none hs = hs
of_option (some h) hs = h ∷ hs

module _ {S H : Type 0} (lib : LibusbLibrary S H) (handles : HandleList lib) where
  -- A search adds the handle that it brings, and no other.
  abbrev Adds : Option H × S → S → Type 0
  Adds (h, s') s = handles.held s' ≡ of_option h (handles.held s)

  claim-Adds :
      (h : H) (s : S) (rest : List H)
      → handles.held s ≡ h ∷ rest
      → handles.held (claim lib h s).1 ≡ of_option (claim lib h s).0 rest
  unfolding claim
  claim-Adds h s rest e =
      let s' = (lib.usb_claim_interface h s).1 in
      ground (arith, handles.claims h s, handles.closes h s' rest)

  take_device-Adds :
      (h : H) (s : S) (rest : List H)
      → handles.held s ≡ h ∷ rest
      → handles.held (take_device lib h s).1 ≡ of_option (take_device lib h s).0 rest
  unfolding take_device detach_driver
  take_device-Adds h s rest e =
      let s' = (lib.usb_get_driver_np h s).1 in
      let s'' = (lib.usb_detach_kernel_driver_np h s').1 in
      ground (
        arith,
        handles.get_driver h s,
        handles.detach h s',
        handles.closes h s'' rest,
        claim-Adds h s rest,
        claim-Adds h s' rest,
        claim-Adds h s'' rest,
      )

  try_open-Adds : (dev : UsbDevice) (s : S) → Adds (try_open lib dev s) s
  unfolding try_open
  try_open-Adds dev s = elim (Option-cases (lib.usb_open dev s).0) [
    | inl e ↦ rw (e, try_open) (handles.fails dev s e)
    | inr (h, e) ↦
        rw (e, try_open)
          (take_device-Adds h (lib.usb_open dev s).1 (handles.held s) (handles.opens dev s h e))
  ]

  try_device-Adds : (vid pid : ℕ) (dev : UsbDevice) (s : S) → Adds (try_device lib vid pid dev s) s
  unfolding try_device
  try_device-Adds vid pid dev s = ground (arith, try_open-Adds dev s)

  -- A second attempt behind one that has brought nothing.
  Adds-else :
      (r : Option H × S) (s : S) (next : S → Option H × S)
      → Adds r s
      → ((s' : S) → Adds (next s') s')
      → Adds (elim r.0 [ none ↦ next r.1 | some h ↦ (some h, r.1) ]) s
  Adds-else (none, s') s next h k = k s' ∙ ap (of_option (next s').0) h
  Adds-else (some x, s') s next h k = h

  search_bus-Adds :
      (vid pid : ℕ) (bus : List UsbDevice) (s : S) → Adds (search_bus lib vid pid bus s) s
  unfolding search_bus
  search_bus-Adds vid pid [] s = refl
  search_bus-Adds vid pid (dev ∷ bus) s =
      Adds-else (try_device lib vid pid dev s) s (search_bus lib vid pid bus)
        (try_device-Adds vid pid dev s) (search_bus-Adds vid pid bus)

  search_busses-Adds :
      (vid pid : ℕ) (bs : List (List UsbDevice)) (s : S) → Adds (search_busses lib vid pid bs s) s
  unfolding search_busses
  search_busses-Adds vid pid [] s = refl
  search_busses-Adds vid pid (bus ∷ bs) s =
      Adds-else (search_bus lib vid pid bus s) s (search_busses lib vid pid bs)
        (search_bus-Adds vid pid bus s) (search_busses-Adds vid pid bs)

  open_usb_device-Adds : (vid pid : ℕ) (s : S) → Adds (open_usb_device lib vid pid s) s
  unfolding open_usb_device
  open_usb_device-Adds vid pid s =
      let s' = lib.usb_find_busses (lib.usb_init s) in
      let found = lib.usb_find_devices s' in
      search_busses-Adds vid pid (lib.busses found) found
      ∙ ap (of_option (search_busses lib vid pid (lib.busses found) found).0)
          (handles.find_devices s' ∙ handles.find_busses (lib.usb_init s) ∙ handles.init s)

  open_either-Adds : (pid : ℕ) (s : S) → Adds (open_either lib pid s) s
  unfolding open_either
  open_either-Adds pid s =
      Adds-else (open_usb_device lib 0x16C0 pid s) s (open_usb_device lib 0x03eb 0x2067)
        (open_usb_device-Adds 0x16C0 pid s) (open_usb_device-Adds 0x03eb 0x2067)

  release-held :
      (h : H) (s : S) (rest : List H)
      → handles.held s ≡ h ∷ rest
      → handles.held (release_handle lib h s) ≡ rest
  unfolding release_handle
  release-held h s rest e =
      handles.closes h (lib.usb_release_interface h s) rest (handles.releases h s ∙ e)

  close_handle-held :
      (h : Option H) (s : S)
      → handles.held s ≡ of_option h []
      → handles.held (close_held lib h s) ≡ []
  unfolding close_held
  close_handle-held none s e = e
  close_handle-held (some h) s e = release-held h s [] e

  -- The handles that are open are the one that the variable holds.
  abbrev pub Owned : Session S H → Type 0
  Owned st = handles.held st.usb ≡ of_option st.libusb_teensy_handle []

  pub teensy_close-Owned : (st : Session S H) → Owned st → Owned (teensy_close lib st)
  unfolding teensy_close
  teensy_close-Owned st e = close_handle-held st.libusb_teensy_handle st.usb e

  pub teensy_open-Owned : (st : Session S H) → Owned st → Owned (teensy_open lib st).1
  unfolding teensy_open
  teensy_open-Owned st e =
      let s = (teensy_close lib st).usb in
      open_either-Adds 0x0478 s
      ∙ ap (of_option (open_either lib 0x0478 s).0)
          (unfold teensy_close in close_handle-held st.libusb_teensy_handle st.usb e)

  write_handle-held :
      (h : Option H) (buf : Bytes) (t : ℕ) (s : S)
      → handles.held (write_handle lib h buf t s).1 ≡ handles.held s
  unfolding write_handle
  write_handle-held none buf t s = refl
  write_handle-held (some h) buf t s = handles.messages h buf t s

  pub teensy_write-Owned :
      (st : Session S H) (buf : Bytes) (long : Bool)
      → Owned st
      → Owned (teensy_write lib st buf long).1
  unfolding teensy_write
  teensy_write-Owned st buf long e =
      write_handle-held st.libusb_teensy_handle buf (if long then 3000 else 250) st.usb ∙ e

  reboot_handle-held :
      (h : H) (s : S) (rest : List H)
      → handles.held s ≡ h ∷ rest
      → handles.held (reboot_handle lib h s).1 ≡ rest
  unfolding reboot_handle
  reboot_handle-held h s rest e =
      release-held h _ rest (handles.messages h (codes "reboot") 100 s ∙ e)

  pub hard_reboot-Owned : (st : Session S H) → Owned st → Owned (hard_reboot lib st).1
  unfolding hard_reboot
  hard_reboot-Owned st e =
      let r = open_either lib 0x0477 st.usb in
      let added = λ (x : Option H) (q : r.0 ≡ x).
        open_either-Adds 0x0477 st.usb ∙ ap (λ y. of_option y (handles.held st.usb)) q in
      elim (Option-cases r.0) [
        | inl q ↦ rw (q, hard_reboot) (added none q ∙ e)
        | inr (h, q) ↦
            rw (q, hard_reboot)
              (reboot_handle-held h r.1 (handles.held st.usb) (added (some h) q) ∙ e)
      ]
