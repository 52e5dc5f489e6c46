-- ===== src/Loader/Win32/Writes.antt =====
-- A write leaves the open files and the variable as they are.
use iss_notify_firmware.Common.{
  ℕ, Bool, true, false, Option, none, some, List, ◌∷◌, Bytes, ◌≡◌, refl, ◌∙◌, ltb, if◌then◌else◌,
  Option-cases, inl, inr, length,
}
use iss_notify_firmware.Loader.Win32.{
  Windows, Session, Wait, wait_timeout, wait_object, wait_other, written, await, send_buffer,
  write_with, write_usb_device,
}
use iss_notify_firmware.Loader.Win32.Search.{FileTable}

module _ {S : Type 0} (sys : Windows S) (table : FileTable sys) where
  written-held : (h : ℕ) (s : S) → table.held (written sys h s).1 ≡ table.held s
  unfolding written
  written-held h s = elim (Option-cases (sys.overlapped_result h s).0) [
    | inl q ↦ rw (q, written) (table.results h s)
    | inr (n, q) ↦ rw (q, written) (table.results h s)
  ]

  answered :
      (r : Wait) (h : ℕ) (s : S)
      → let x : Bool × S = elim r [
        | wait_timeout ↦ (false, sys.cancel_io h s)
        | wait_object ↦ written sys h s
        | wait_other ↦ (false, s)
      ] in
        table.held x.1 ≡ table.held s
  answered wait_timeout h s = table.cancels h s
  answered wait_object h s = written-held h s
  answered wait_other h s = refl

  either_held :
      (b : Bool) (x y : Bool × S) (hs : List ℕ)
      → table.held x.1 ≡ hs
      → table.held y.1 ≡ hs
      → table.held (if b then x else y).1 ≡ hs
  either_held true x y hs e e' = e
  either_held false x y hs e e' = e'

  await-held :
      (h event timeout : ℕ) (s : S) → table.held (await sys h event timeout s).1 ≡ table.held s
  unfolding await
  await-held h event timeout s =
      either_held (sys.io_pending s) _ _ (table.held s)
        (answered (sys.wait_for event timeout s).0 h (sys.wait_for event timeout s).1
          ∙ table.waits event timeout s)
        refl

  send_buffer-held :
      (h event : ℕ) (buf : Bytes) (timeout : ℕ) (s : S)
      → table.held (send_buffer sys h event buf timeout s).1 ≡ table.held s
  unfolding send_buffer
  send_buffer-held h event buf timeout s =
      let start = sys.reset_event_address s in
      let s' = (sys.write_file h event (0 ∷ buf) start).1 in
      let same = table.writes h event (0 ∷ buf) start ∙ table.resets s in
      either_held (sys.write_file h event (0 ∷ buf) start).0 _ _ (table.held s)
        (written-held h s' ∙ same) (await-held h event timeout s' ∙ same)

  -- A write leaves the open files and the variable.
  abbrev pub Keeps : Bool × Session S → Session S → Type 0
  Keeps (ok, st') st =
      (table.held st'.system ≡ table.held st.system)
      × (st'.win32_teensy_handle ≡ st.win32_teensy_handle)

  write_with-Keeps :
      (event : Option ℕ) (h : ℕ) (buf : Bytes) (timeout : ℕ) (st : Session S)
      → Keeps (write_with sys event h buf timeout st) st
  unfolding write_with
  write_with-Keeps (some event) h buf timeout st =
      (send_buffer-held h event buf timeout st.system, refl)
  write_with-Keeps none h buf timeout st =
      let s = (sys.create_event st.system).1 in
      elim (Option-cases (sys.create_event st.system).0) [
        | inl q ↦ rw (q, write_with) (table.events st.system, refl)
        | inr (event, q) ↦
            rw (q, write_with)
              (send_buffer-held h event buf timeout s ∙ table.events st.system, refl)
      ]

  Keeps-if :
      (b : Bool) (r : Bool × Session S) (st : Session S)
      → Keeps r st
      → Keeps (if b then (false, st) else r) st
  Keeps-if true r st k = (refl, refl)
  Keeps-if false r st k = k

  pub write_usb_device-Keeps :
      (h : ℕ) (buf : Bytes) (timeout : ℕ) (st : Session S)
      → Keeps (write_usb_device sys h buf timeout st) st
  unfolding write_usb_device
  write_usb_device-Keeps h buf timeout st =
      Keeps-if (ltb 1039 (length buf)) (write_with sys st.event h buf timeout st) st
        (write_with-Keeps st.event h buf timeout st)
