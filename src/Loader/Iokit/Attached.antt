-- ===== src/Loader/Iokit/Attached.antt =====
-- The list of the devices against the history of the callbacks.
use iss_notify_firmware.Common.{
  ℕ, Bool, true, false, ◌||◌, Option, none, some, List, [], ◌∷◌, ◌++◌, ◌≡◌, refl, ap, sym, ◌∙◌,
  arith, ◌==◌, if◌then◌else◌, ◌>>=◌, append-nil, append_assoc, Option-cases, inl, inr,
}
use iss_notify_firmware.Loader.Iokit.{
  UsbEntry, Event, attached, detached, Framework, Session, vendor_id, product_id, append_entry,
  remove_entries, number_property, attach_device, attach_callback, detach_callback, handle,
  handle_all,
}

-- Is a device detached by one of the events?
abbrev pub gone : ℕ → List Event → Bool
gone ref [] = false
gone ref (attached dev ∷ events) = gone ref events
gone ref (detached none ∷ events) = gone ref events
gone ref (detached (some dev) ∷ events) = ref == dev || gone ref events

-- The entries of devices that stay.
abbrev pub survivors : List Event → List UsbEntry → List UsbEntry
survivors events [] = []
survivors events (p ∷ ps) =
    if gone p.ref events then survivors events ps else p ∷ survivors events ps

append_entry_lem : (n : UsbEntry) (ps : List UsbEntry) → append_entry n ps ≡ ps ++ n ∷ []
unfolding append_entry
append_entry_lem n [] = refl
append_entry_lem n (p ∷ ps) = ap (λ s. p ∷ s) (append_entry_lem n ps)

survivors-append :
    (events : List Event) (ps qs : List UsbEntry)
    → survivors events (ps ++ qs) ≡ survivors events ps ++ survivors events qs
survivors-append events [] qs = refl
survivors-append events (p ∷ ps) qs = ground (arith, survivors-append events ps qs)

survivors-remove_entries :
    (dev : ℕ) (events : List Event) (ps : List UsbEntry)
    → survivors events (remove_entries dev ps) ≡ survivors (detached (some dev) ∷ events) ps
unfolding remove_entries
survivors-remove_entries dev events [] = refl
survivors-remove_entries dev events (p ∷ ps) =
    ground (arith, survivors-remove_entries dev events ps)

survivors_none : (ps : List UsbEntry) → survivors [] ps ≡ ps
survivors_none [] = refl
survivors_none (p ∷ ps) = ap (λ s. p ∷ s) (survivors_none ps)

module _ {S T : Type 0} (sys : Framework S T) where
  -- The entry of a device whose two properties can be read.
  abbrev entry_of : ℕ → Option UsbEntry
  entry_of dev = number_property sys dev vendor_id >>= λ vid.
      number_property sys dev product_id >>= λ pid.
      some (record { ref = dev; pid = pid; vid = vid })

  abbrev to_list : Option UsbEntry → List UsbEntry
  to_list none = []
  to_list (some p) = p ∷ []

  -- The devices that the events attach and do not detach afterwards, in order.
  abbrev pub arrivals : List Event → List UsbEntry
  arrivals [] = []
  arrivals (attached none ∷ events) = arrivals events
  arrivals (attached (some dev) ∷ events) =
      survivors events (to_list (entry_of dev)) ++ arrivals events
  arrivals (detached dev ∷ events) = arrivals events

  attach_device_lem :
      (dev : ℕ) (st : Session S)
      → ((s : S) → (sys.malloc s).0 ≡ true)
      → (attach_device sys dev st).usb_list ≡ st.usb_list ++ to_list (entry_of dev)
  unfolding attach_device
  attach_device_lem dev st room = elim (Option-cases (number_property sys dev vendor_id)) [
    | inl e ↦ rw (e, attach_device) (sym (append-nil st.usb_list))
    | inr (vid, e) ↦ elim (Option-cases (number_property sys dev product_id)) [
      | inl q ↦ rw (e, attach_device) (rw q (sym (append-nil st.usb_list)))
      | inr (pid, q) ↦
          rw (e, attach_device) (rw (q, room st.system) (append_entry_lem _ st.usb_list))
    ]
  ]

  -- If there is always memory, then after any history of callbacks the list holds, in order, the
  -- entries that it had and whose devices were not detached, and then those of the devices that
  -- were attached with two readable numbers and not detached afterwards.
  pub handle_all-arrivals :
      (events : List Event) (st : Session S)
      → ((s : S) → (sys.malloc s).0 ≡ true)
      → (handle_all sys events st).usb_list ≡ survivors events st.usb_list ++ arrivals events
  unfolding handle_all handle attach_callback detach_callback
  handle_all-arrivals [] st room =
      sym (append-nil (survivors [] st.usb_list) ∙ survivors_none st.usb_list)
  handle_all-arrivals (attached none ∷ events) st room = handle_all-arrivals events st room
  handle_all-arrivals (attached (some dev) ∷ events) st room =
      let new = to_list (entry_of dev) in
      handle_all-arrivals events (attach_device sys dev st) room
      ∙ ap (λ l. survivors events l ++ arrivals events) (attach_device_lem dev st room)
      ∙ ap (λ l. l ++ arrivals events) (survivors-append events st.usb_list new)
      ∙ append_assoc (survivors events st.usb_list) (survivors events new) (arrivals events)
  handle_all-arrivals (detached none ∷ events) st room = handle_all-arrivals events st room
  handle_all-arrivals (detached (some dev) ∷ events) st room =
      handle_all-arrivals events (record st { usb_list = remove_entries dev st.usb_list }) room
      ∙ ap (λ l. l ++ arrivals events) (survivors-remove_entries dev events st.usb_list)
