-- ===== src/Loader/Iokit/Entries.antt =====
-- Each open device has an entry in the list.
use iss_notify_firmware.Common.{
  ℕ, true, ◌&&◌, Option, some, List, [], ◌∷◌, ◌≡◌, ◌≢◌, ◌⊎◌, refl, sym, ap, subst, ◌∙◌, arith, ◌==◌,
  Bool-cases, inl, inr,
}
use iss_notify_firmware.Loader.Iokit.{
  UsbEntry, Framework, Session, open_entry, open_usb_device, close_entry, close_usb_device,
  do_run_loop, init_hid_manager,
}
use iss_notify_firmware.Loader.Iokit.Devices.{OpenDevices, Follows, listed}
use iss_notify_firmware.Loader.Iokit.Steps.{do_run_loop-Follows, init_hid_manager-Follows}

module _ {S T : Type 0} (sys : Framework S T) (devices : OpenDevices sys) where
  -- Each open device is one of these and has an entry, and the variable is as given.
  pub record Holds (A : ℕ → Type 0) (var : Option ℕ) (st : Session S) : Type 0 where
    pub known : (x : ℕ) → devices.Open st.system x → A x × (listed x st.usb_list ≡ true)
    pub variable : st.iokit_teensy_reference ≡ var

  Follows-Holds :
      {A : ℕ → Type 0} {var : Option ℕ} {st st' : Session S}
      → Follows sys devices st st'
      → Holds A var st
      → Holds A var st'
  Follows-Holds f h = record {
    known = λ x o. let (o', later) = f.opened x o in let (a, l) = h.known x o' in (a, later l);
    variable = f.same ∙ h.variable;
  }

  -- What the loop of `open_usb_device` opens, it returns.
  open_entry-opened :
      (vid pid : ℕ) (ps : List UsbEntry) (s : S) (x : ℕ)
      → devices.Open (open_entry sys vid pid ps s).1 x
      → devices.Open s x ⊎ (((open_entry sys vid pid ps s).0 ≡ some x) × (listed x ps ≡ true))
  unfolding open_entry
  open_entry-opened vid pid [] s x = λ o. inl o
  open_entry-opened vid pid (p ∷ ps) s x =
      let s' = (sys.device_open p.ref s).1 in
      elim (Bool-cases (p.vid == vid && p.pid == pid)) [
        | inr other ↦
            rw (other, open_entry)
              (λ o. elim (open_entry-opened vid pid ps s x o) [
                | inl o' ↦ inl o'
                | inr (e, l) ↦ inr (e, ground (arith))
              ])
        | inl wanted ↦
            rw (wanted, open_entry)
              (elim (Bool-cases (sys.device_open p.ref s).0) [
                | inl done ↦ rw done (λ o. elim (devices.opens p.ref s x o) [
                  | inl o' ↦ inl o'
                  | inr (_, e) ↦ inr (ap some (sym e), ground (arith))
                ])
                | inr failed ↦ rw failed (λ o. elim (open_entry-opened vid pid ps s' x o) [
                  | inl o' ↦ elim (devices.opens p.ref s x o') [
                    | inl o'' ↦ inl o''
                    | inr (done, _) ↦ absurd (cc)
                  ]
                  | inr (e, l) ↦ inr (e, ground (arith))
                ])
              ])
      ]

  close_entry-opened :
      (dev : ℕ) (ps : List UsbEntry) (s : S) (x : ℕ)
      → devices.Open (close_entry sys dev ps s) x
      → devices.Open s x
  unfolding close_entry
  close_entry-opened dev [] s x = λ o. o
  close_entry-opened dev (p ∷ ps) s x = elim (Bool-cases (p.ref == dev)) [
    | inl here ↦ rw (here, close_entry) (λ o. (devices.closes dev s x o).0)
    | inr there ↦ rw (there, close_entry) (close_entry-opened dev ps s x)
  ]

  -- A device that has an entry is closed.
  close_entry-shut :
      (dev : ℕ) (ps : List UsbEntry) (s : S)
      → listed dev ps ≡ true
      → ¬ devices.Open (close_entry sys dev ps s) dev
  unfolding close_entry
  close_entry-shut dev [] s l = absurd (cc)
  close_entry-shut dev (p ∷ ps) s l = elim (Bool-cases (p.ref == dev)) [
    | inl here ↦ rw (here, close_entry) (λ o. (devices.closes dev s dev o).1 refl)
    | inr there ↦ rw (there, close_entry) (close_entry-shut dev ps s (ground (arith)))
  ]

  pub open_usb_device-Holds :
      (vid pid : ℕ) {A : ℕ → Type 0} {var : Option ℕ} {st : Session S}
      → Holds A var st
      → let r = open_usb_device sys vid pid st in Holds (λ x. A x ⊎ (r.0 ≡ some x)) var r.1
  unfolding open_usb_device
  open_usb_device-Holds vid pid {A} {var} {st} h =
      let st' = do_run_loop sys (init_hid_manager sys st) in
      let h' =
        Follows-Holds (do_run_loop-Follows sys devices (init_hid_manager sys st))
          (Follows-Holds (init_hid_manager-Follows sys devices st) h) in
      record {
        known = λ x o. elim (open_entry-opened vid pid st'.usb_list st'.system x o) [
          | inl o' ↦ (inl (h'.known x o').0, (h'.known x o').1)
          | inr (e, l) ↦ (inr e, l)
        ];
        variable = h'.variable;
      }

  pub close_usb_device-Holds :
      (dev : ℕ) {A : ℕ → Type 0} {var : Option ℕ} {st : Session S}
      → Holds A var st
      → Holds (λ x. A x × (x ≢ dev)) var (close_usb_device sys dev st)
  unfolding close_usb_device
  close_usb_device-Holds dev {A} {var} {st} h =
      let st' = do_run_loop sys st in
      let h' = Follows-Holds (do_run_loop-Follows sys devices st) h in
      record {
        known = λ x o.
            let (a, l) = h'.known x (close_entry-opened dev st'.usb_list st'.system x o) in
            (
              (
                a,
                λ e.
                    close_entry-shut dev st'.usb_list st'.system
                      (ap (λ y. listed y st'.usb_list) (sym e) ∙ l)
                      (subst (devices.Open (close_entry sys dev st'.usb_list st'.system)) e o),
              ),
              l,
            );
        variable = h'.variable;
      }

  pub Holds-weaken :
      {A A' : ℕ → Type 0} {var : Option ℕ} {st : Session S}
      → ((x : ℕ) → A x → A' x)
      → Holds A var st
      → Holds A' var st
  Holds-weaken f h = record {
    known = λ x o. (f x (h.known x o).0, (h.known x o).1);
    variable = h.variable;
  }
