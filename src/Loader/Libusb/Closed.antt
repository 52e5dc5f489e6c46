-- ===== src/Loader/Libusb/Closed.antt =====
-- The whole program over libusb leaves no handle open.
use iss_notify_firmware.Common.{ℕ, Option, none, some, List, [], Bytes, ◌≡◌, refl, ap, ◌∙◌}
use iss_notify_firmware.Loader.Main.{went, main}
use iss_notify_firmware.Loader.Main.Outcome.{Goes-went}
use iss_notify_firmware.Loader.Main.Keeps.{Keeps, Closed, main-Keeps}
use iss_notify_firmware.Loader.Libusb.{LibusbLibrary, Session, teensy_close, libusb_host}
use iss_notify_firmware.Loader.Libusb.Handles.{
  HandleList, Owned, teensy_open-Owned, teensy_write-Owned, hard_reboot-Owned, teensy_close-Owned,
}

module _ {S H : Type 0} (lib : LibusbLibrary S H) (handles : HandleList lib) where
  -- The four functions keep to that.
  libusb_host-Keeps :
      (delay : Session S H → Session S H) (content : Bytes → Session S H → Option Bytes)
      → ((st : Session S H) → Owned lib handles st → Owned lib handles (delay st))
      → Keeps (libusb_host lib delay content) (Owned lib handles)
  libusb_host-Keeps delay content keeps = record {
    opening = teensy_open-Owned lib handles;
    writing = teensy_write-Owned lib handles;
    rebooting = hard_reboot-Owned lib handles;
    delaying = keeps;
  }

  -- If only `usb_open` opens a handle, only `usb_close` closes one, and the delay leaves them
  -- alone: when `main` over libusb begins with no open handle but the one in
  -- `libusb_teensy_handle`, and ends without an error, no handle is open and the variable is
  -- empty.
  pub main-closed :
      (delay : Session S H → Session S H) (content : Bytes → Session S H → Option Bytes) (fuel : ℕ)
      (args : List Bytes) (st st' : Session S H)
      → ((x : Session S H) → Owned lib handles x → Owned lib handles (delay x))
      → Owned lib handles st
      → main (libusb_host lib delay content) fuel args st ≡ some (went st')
      → (handles.held st'.usb ≡ []) × (st'.libusb_teensy_handle ≡ none)
  main-closed delay content fuel args st st' keeps owned h =
      let host = libusb_host lib delay content in
      let (last, e, own) =
        Goes-went (Closed host (Owned lib handles)) (main host fuel args st) st'
          (main-Keeps host (Owned lib handles) (libusb_host-Keeps delay content keeps) fuel args st
            owned)
          h in
      let closed : handles.held (teensy_close lib last).usb ≡ [] =
        unfold teensy_close in teensy_close-Owned lib handles last own in
      (
        ap (λ (x : Session S H). handles.held x.usb) e ∙ closed,
        ap (λ (x : Session S H). x.libusb_teensy_handle) e ∙ (unfold teensy_close in refl),
      )
