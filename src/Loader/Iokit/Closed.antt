-- ===== src/Loader/Iokit/Closed.antt =====
-- The whole program over IOKit leaves no device open.
use iss_notify_firmware.Common.{
  ℕ, Bool, false, Option, none, some, some-injective, List, Bytes, codes, ◌≡◌, ◌⊎◌, refl, sym,
  subst, ◌∙◌, inl, inr,
}
use iss_notify_firmware.Loader.Main.{went, main}
use iss_notify_firmware.Loader.Main.Outcome.{Goes-went}
use iss_notify_firmware.Loader.Main.Keeps.{Keeps, Closed, main-Keeps}
use iss_notify_firmware.Loader.Iokit.{
  Framework, Session, open_usb_device, close_usb_device, open_either, teensy_open, teensy_write,
  teensy_close, hard_reboot, iokit_host,
}
use iss_notify_firmware.Loader.Iokit.Devices.{OpenDevices}
use iss_notify_firmware.Loader.Iokit.Entries.{
  Holds, Holds-weaken, open_usb_device-Holds, close_usb_device-Holds,
}

module _ {S T : Type 0} (sys : Framework S T) (devices : OpenDevices sys) where
  either :
      {A : ℕ → Type 0} {var : Option ℕ} (dev : Option ℕ) {st : Session S}
      → Holds sys devices (λ x. A x ⊎ (dev ≡ some x)) var st
      → let r : Option ℕ × Session S = elim dev [
        | none ↦ open_usb_device sys 0x03eb 0x2067 st
        | some dev' ↦ (some dev', st)
      ] in
        Holds sys devices (λ x. A x ⊎ (r.0 ≡ some x)) var r.1
  either none h =
      open_usb_device-Holds sys devices 0x03eb 0x2067
        (Holds-weaken sys devices (λ x a. elim a [ inl a' ↦ a' | inr e ↦ absurd (cc) ]) h)
  either (some dev) h = h

  open_either-Holds :
      (pid : ℕ) {A : ℕ → Type 0} {var : Option ℕ} {st : Session S}
      → Holds sys devices A var st
      → let r = open_either sys pid st in Holds sys devices (λ x. A x ⊎ (r.0 ≡ some x)) var r.1
  unfolding open_either
  open_either-Holds pid {st = st} h =
      either (open_usb_device sys 0x16C0 pid st).0 (open_usb_device-Holds sys devices 0x16C0 pid h)

  -- The only open device is the one in the variable, if any.
  abbrev pub Owned : Session S → Type 0
  Owned st =
      Holds sys devices (λ x. st.iokit_teensy_reference ≡ some x) st.iokit_teensy_reference st

  Holds-Owned :
      {var : Option ℕ} {st : Session S} → Holds sys devices (λ x. var ≡ some x) var st → Owned st
  Holds-Owned h = record {
    known = λ x o. (h.variable ∙ (h.known x o).0, (h.known x o).1);
    variable = refl;
  }

  shut :
      (var : Option ℕ) {st : Session S}
      → Holds sys devices (λ x. var ≡ some x) var st
      → Holds sys devices
          (λ x. ⊥)
          none
          (elim var [
            | none ↦ st
            | some dev ↦ record (close_usb_device sys dev st) { iokit_teensy_reference = none }
          ])
  shut none h = Holds-weaken sys devices (λ x e. absurd (cc)) h
  shut (some dev) h =
      let h' = close_usb_device-Holds sys devices dev h in
      record {
        known =
            λ x o. let ((e, other), l) = h'.known x o in (other (sym (some-injective _ _ e)), l);
        variable = refl;
      }

  teensy_close-Holds :
      {st : Session S} → Owned st → Holds sys devices (λ x. ⊥) none (teensy_close sys st)
  unfolding teensy_close
  teensy_close-Holds {st} h = shut st.iokit_teensy_reference h

  teensy_open-Owned : (st : Session S) → Owned st → Owned (teensy_open sys st).1
  unfolding teensy_open
  teensy_open-Owned st h =
      let h' = open_either-Holds 0x0478 (teensy_close-Holds h) in
      record {
        known = λ x o.
            let (a, l) = h'.known x o in (elim a [ inl never ↦ absurd (never) | inr e ↦ e ], l);
        variable = refl;
      }

  -- A report changes no more than the system, and opens nothing there.
  reported :
      {A : ℕ → Type 0} {var : Option ℕ} (dev : ℕ) (buf : Bytes) {st : Session S}
      → Holds sys devices A var st
      → Holds sys devices A var (record st { system = (sys.set_report dev buf st.system).1 })
  reported dev buf {st} h = record {
    known = λ x o. h.known x (devices.reports dev buf st.system x o);
    variable = h.variable;
  }

  wrote :
      {A : ℕ → Type 0} {var : Option ℕ} (dev : Option ℕ) (buf : Bytes) {st : Session S}
      → Holds sys devices A var st
      → let r : Bool × Session S = elim dev [
        | none ↦ (false, st)
        | some dev' ↦
            (let (ok, s) = sys.set_report dev' buf st.system in (ok, record st { system = s }))
      ] in
        Holds sys devices A var r.1
  wrote none buf h = h
  wrote (some dev) buf h = reported dev buf h

  teensy_write-Owned :
      (st : Session S) (buf : Bytes) (long : Bool)
      → Owned st
      → Owned (teensy_write sys st buf long).1
  unfolding teensy_write
  teensy_write-Owned st buf long h = Holds-Owned (wrote st.iokit_teensy_reference buf h)

  -- The rebootor is closed again.
  rebooted :
      {A : ℕ → Type 0} {var : Option ℕ} (dev : Option ℕ) {st : Session S}
      → Holds sys devices (λ x. A x ⊎ (dev ≡ some x)) var st
      → let r : Bool × Session S = elim dev [
        | none ↦ (false, st)
        | some dev' ↦
            (let (ok, s) = sys.set_report dev' (codes "reboot") st.system in
              (ok, close_usb_device sys dev' (record st { system = s })))
      ] in
        Holds sys devices A var r.1
  rebooted none h = Holds-weaken sys devices (λ x a. elim a [ inl a' ↦ a' | inr e ↦ absurd (cc) ]) h
  rebooted (some dev) h =
      Holds-weaken sys devices
        (λ x (a, other). elim a [
          | inl a' ↦ a'
          | inr e ↦ absurd (other (sym (some-injective _ _ e)))
        ])
        (close_usb_device-Holds sys devices dev (reported dev (codes "reboot") h))

  hard_reboot-Owned : (st : Session S) → Owned st → Owned (hard_reboot sys st).1
  unfolding hard_reboot
  hard_reboot-Owned st h =
      Holds-Owned (rebooted (open_either sys 0x0477 st).0 (open_either-Holds 0x0477 h))

  iokit_host-Keeps :
      (delay : Session S → Session S) (content : Bytes → Session S → Option Bytes)
      → ((st : Session S) → Owned st → Owned (delay st))
      → Keeps (iokit_host sys delay content) Owned
  iokit_host-Keeps delay content keeps = record {
    opening = teensy_open-Owned;
    writing = teensy_write-Owned;
    rebooting = hard_reboot-Owned;
    delaying = keeps;
  }

  -- If only `IOHIDDeviceOpen` opens a device, and only when it says so, `IOHIDDeviceClose` leaves
  -- its device closed, a device is not open any more behind a run of the loop that detaches it,
  -- and the delay keeps what is said of the beginning: when `main` over IOKit begins with no open
  -- device but the one in `iokit_teensy_reference`, which then has an entry in the list of the
  -- attached devices, and ends without an error, no device is open and the variable is empty,
  -- whichever devices are attached and detached meanwhile.
  pub iokit_main-closed :
      (delay : Session S → Session S) (content : Bytes → Session S → Option Bytes) (fuel : ℕ)
      (args : List Bytes) (st st' : Session S)
      → ((x : Session S) → Owned x → Owned (delay x))
      → Owned st
      → main (iokit_host sys delay content) fuel args st ≡ some (went st')
      → ((x : ℕ) → ¬ devices.Open st'.system x) × (st'.iokit_teensy_reference ≡ none)
  iokit_main-closed delay content fuel args st st' keeps owned h =
      let host = iokit_host sys delay content in
      let (last, e, own) =
        Goes-went (Closed host Owned) (main host fuel args st) st'
          (main-Keeps host Owned (iokit_host-Keeps delay content keeps) fuel args st owned) h in
      let closed = subst (Holds sys devices (λ x. ⊥) none) (sym e) (teensy_close-Holds own) in
      (λ x o. (closed.known x o).0, closed.variable)
