-- ===== src/Loader/Iokit/Devices.antt =====
-- Which devices are open, from call to call.
use iss_notify_firmware.Common.{
  ℕ, Bool, true, false, ◌||◌, Option, List, [], ◌∷◌, Bytes, ◌≡◌, ◌≢◌, ◌⊎◌, refl, ◌∙◌, arith, ◌==◌,
  if◌then◌else◌, Option-cases, inl, inr,
}
use iss_notify_firmware.Loader.Iokit.{
  UsbEntry, Framework, Session, vendor_id, product_id, append_entry, remove_entries,
  number_property, attach_device,
}
use iss_notify_firmware.Loader.Iokit.Attached.{gone}

-- Only `IOHIDDeviceOpen` opens a device, if it says so; `IOHIDDeviceClose` closes it; and a device
-- that the run loop has detached is not open any more.
pub record OpenDevices {S T : Type 0} (sys : Framework S T) : Type 1 where
  pub Open : S → ℕ → Type 0
  pub allocates : (s : S) (x : ℕ) → Open (sys.malloc s).1 x → Open s x
  pub creates : (s : S) (x : ℕ) → Open (sys.manager_create s).1 x → Open s x
  pub releases : (m : ℕ) (s : S) (x : ℕ) → Open (sys.release m s) x → Open s x
  pub makes : (s : S) (x : ℕ) → Open (sys.dictionary_create s).1 x → Open s x
  pub matches : (m dict : ℕ) (s : S) (x : ℕ) → Open (sys.set_matching m dict s) x → Open s x
  pub schedules : (m : ℕ) (s : S) (x : ℕ) → Open (sys.schedule m s) x → Open s x
  pub registers : (m : ℕ) (s : S) (x : ℕ) → Open (sys.register_callbacks m s) x → Open s x
  pub manages : (m : ℕ) (s : S) (x : ℕ) → Open (sys.manager_open m s).1 x → Open s x
  pub unschedules : (m : ℕ) (s : S) (x : ℕ) → Open (sys.unschedule m s) x → Open s x
  pub runs :
      (s : S) (x : ℕ) → Open (sys.run_loop s).1 x → Open s x × (gone x (sys.run_loop s).0 ≡ false)
  pub opens :
      (dev : ℕ) (s : S) (x : ℕ)
      → Open (sys.device_open dev s).1 x
      → Open s x ⊎ (((sys.device_open dev s).0 ≡ true) × (x ≡ dev))
  pub closes : (dev : ℕ) (s : S) (x : ℕ) → Open (sys.device_close dev s) x → Open s x × (x ≢ dev)
  pub reports :
      (dev : ℕ) (buf : Bytes) (s : S) (x : ℕ) → Open (sys.set_report dev buf s).1 x → Open s x

-- Has a device an entry?
abbrev pub listed : ℕ → List UsbEntry → Bool
listed x [] = false
listed x (p ∷ ps) = p.ref == x || listed x ps

listed-append_entry :
    (x : ℕ) (n : UsbEntry) (ps : List UsbEntry)
    → listed x ps ≡ true
    → listed x (append_entry n ps) ≡ true
unfolding append_entry
listed-append_entry x n [] h = absurd (cc)
listed-append_entry x n (p ∷ ps) h = ground (arith, listed-append_entry x n ps)

pub listed-remove_entries :
    (x dev : ℕ) (ps : List UsbEntry)
    → (x == dev) ≡ false
    → listed x (remove_entries dev ps) ≡ listed x ps
unfolding remove_entries
listed-remove_entries x dev [] h = refl
listed-remove_entries x dev (p ∷ ps) h = ground (arith, listed-remove_entries x dev ps h)

module _ {S T : Type 0} (sys : Framework S T) (devices : OpenDevices sys) where
  -- A step that opens nothing, forgets no open device, and leaves the variable.
  pub record Follows (st st' : Session S) : Type 0 where
    pub opened :
        (x : ℕ)
        → devices.Open st'.system x
        → devices.Open st.system x × (listed x st.usb_list ≡ true → listed x st'.usb_list ≡ true)
    pub same : st'.iokit_teensy_reference ≡ st.iokit_teensy_reference

  pub Follows-trans : {a b c : Session S} → Follows a b → Follows b c → Follows a c
  Follows-trans h k = record {
    opened = λ x o.
        let (o', later) = k.opened x o in
        let (o'', sooner) = h.opened x o' in (o'', λ l. later (sooner l));
    same = k.same ∙ h.same;
  }

  -- One with the list as it was.
  pub quiet :
      (st : Session S) (s : S) (manager : Option ℕ)
      → ((x : ℕ) → devices.Open s x → devices.Open st.system x)
      → Follows st (record st { system = s; hid_manager = manager })
  quiet st s manager h = record { opened = λ x o. (h x o, λ l. l); same = refl }

  pub Follows-refl : (st : Session S) → Follows st st
  Follows-refl st = record { opened = λ x o. (o, λ l. l); same = refl }

  pub Follows-if :
      (b : Bool) {st x y : Session S}
      → Follows st x
      → Follows st y
      → Follows st (if b then x else y)
  Follows-if true h k = h
  Follows-if false h k = k

  pub attach_device-Follows : (dev : ℕ) (st : Session S) → Follows st (attach_device sys dev st)
  unfolding attach_device
  attach_device-Follows dev st = elim (Option-cases (number_property sys dev vendor_id)) [
    | inl q ↦ rw (q, attach_device) (Follows-refl st)
    | inr (vid, q) ↦
        rw (q, attach_device)
          (elim (Option-cases (number_property sys dev product_id)) [
            | inl r ↦ rw r (Follows-refl st)
            | inr (pid, r) ↦ rw r (
                Follows-if (sys.malloc st.system).0
                  (record {
                    opened = λ x o. (
                      devices.allocates st.system x o,
                      λ l. listed-append_entry x _ st.usb_list l,
                    );
                    same = refl;
                  })
                  (quiet st (sys.malloc st.system).1 st.hid_manager (devices.allocates st.system)))
          ])
  ]
