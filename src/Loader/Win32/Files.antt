-- ===== src/Loader/Win32/Files.antt =====
-- No file stays open but the one in `win32_teensy_handle`.
use iss_notify_firmware.Common.{
  ℕ, ◌<◌, Bool, false, Option, none, some, [], Bytes, codes, ◌≡◌, refl, ap, sym, ◌∙◌, if◌then◌else◌,
  ◌>>=◌, is_some,
}
use iss_notify_firmware.Loader.Win32.{
  Windows, Session, write_usb_device, close_option, teensy_close, open_either, teensy_open,
  teensy_write, close_after, hard_reboot,
}
use iss_notify_firmware.Loader.Win32.Search.{FileTable, of_option, Ends, open_either-Ends}
use iss_notify_firmware.Loader.Win32.Writes.{write_usb_device-Keeps}

module _ {S : Type 0} (sys : Windows S) (table : FileTable sys) where
  -- The files that are open are the one in the variable.
  abbrev pub Owned : Session S → Type 0
  Owned st = table.held st.system ≡ of_option st.win32_teensy_handle []

  close_option-held :
      (h : Option ℕ) (s : S)
      → table.held s ≡ of_option h []
      → table.held (close_option sys h s) ≡ []
  unfolding close_option
  close_option-held none s e = e
  close_option-held (some h) s e = table.closes h s [] e

  -- A result, which is there, with the file in the variable, and what it says of it.
  abbrev pub Opened : Option (Bool × Session S) → Type 0
  Opened none = ⊥
  Opened (some (ok, st)) = Owned st × (ok ≡ is_some st.win32_teensy_handle)

  -- A result, which is there, with the variable as before.
  abbrev pub Rebooted : Option ℕ → Option (Bool × Session S) → Type 0
  Rebooted before none = ⊥
  Rebooted before (some (ok, st)) = Owned st × (st.win32_teensy_handle ≡ before)

  stored :
      (r : Option (Option ℕ × S)) (st : Session S)
      → Ends sys table r []
      → Opened (r >>= λ (h, s). some (is_some h, record st { system = s; win32_teensy_handle = h }))
  stored none st e = e
  stored (some (h, s)) st e = (e, refl)

  teensy_write-Owned :
      (handle : Option ℕ) (buf : Bytes) (timeout : ℕ) (st : Session S)
      → Owned st
      → let r : Bool × Session S = elim handle [
        | none ↦ (false, st)
        | some h ↦ write_usb_device sys h buf timeout st
      ] in
        Owned r.1 × (r.1.win32_teensy_handle ≡ st.win32_teensy_handle)
  teensy_write-Owned none buf timeout st e = (e, refl)
  teensy_write-Owned (some h) buf timeout st e =
      let kept = write_usb_device-Keeps sys table h buf timeout st in
      (kept.0 ∙ e ∙ ap (λ x. of_option x []) (sym kept.1), kept.1)

  rebooted :
      (r : Option (Option ℕ × S)) (st : Session S)
      → Ends sys table r (of_option st.win32_teensy_handle [])
      → Rebooted st.win32_teensy_handle (
          r >>= λ (h, s). elim h [
            | none ↦ some (false, record st { system = s })
            | some h' ↦ some (
                close_after sys h'
                  (write_usb_device sys h' (codes "reboot") 100 (record st { system = s })))
          ])
  unfolding close_after
  rebooted none st e = absurd (e)
  rebooted (some (none, s)) st e = (e, refl)
  rebooted (some (some h, s)) st e =
      let st' = record st { system = s } in
      let r = write_usb_device sys h (codes "reboot") 100 st' in
      let kept = write_usb_device-Keeps sys table h (codes "reboot") 100 st' in
      (
        table.closes h r.1.system (of_option st.win32_teensy_handle []) (kept.0 ∙ e)
            ∙ ap (λ x. of_option x []) (sym kept.1),
        kept.1,
      )

  -- If no enumeration has an interface whose number is the limit or more, the fuel is above the
  -- limit, only `CreateFile` opens a file and only `CloseHandle` closes one, and the file in
  -- `win32_teensy_handle` is the only open one: then the searches of `teensy_open` and
  -- `hard_reboot` end; `teensy_open` says whether it has a file, and that file is the only open
  -- one; after `teensy_close` no file is open; after `teensy_write` and `hard_reboot` the one in
  -- the variable is the only open one, and `hard_reboot` leaves the variable as it was.
  pub win32_session-Owned :
      (fuel : ℕ) (st : Session S) (buf : Bytes) (long : Bool)
      → table.limit < fuel
      → Owned st
      → Opened (teensy_open sys fuel st)
        × (table.held (teensy_close sys st).system ≡ [])
        × Owned (teensy_write sys st buf long).1
        × Rebooted st.win32_teensy_handle (hard_reboot sys fuel st)
  unfolding teensy_open teensy_close teensy_write hard_reboot
  win32_session-Owned fuel st buf long enough e =
      let closed = close_option-held st.win32_teensy_handle st.system e in
      (
        stored (open_either sys fuel 0x0478 (close_option sys st.win32_teensy_handle st.system)) st
            (open_either-Ends sys table fuel 0x0478
              (close_option sys st.win32_teensy_handle st.system) [] enough closed),
        closed,
        (teensy_write-Owned st.win32_teensy_handle buf (if long then 3000 else 250) st e).0,
        rebooted (open_either sys fuel 0x0477 st.system) st (
            open_either-Ends sys table fuel 0x0477 st.system (of_option st.win32_teensy_handle [])
              enough e),
      )
