-- ===== src/Loader/Iokit/Steps.antt =====
-- The callbacks, the run loop and the manager open no device.
use iss_notify_firmware.Common.{
  ℕ, Bool, true, false, ◌||◌, Option, none, some, List, [], ◌∷◌, ◌≡◌, refl, ◌∙◌, ◌==◌,
  if◌then◌else◌, Option-cases, inl, inr,
}
use iss_notify_firmware.Loader.Iokit.{
  Event, attached, detached, Framework, Session, attach_device, attach_callback, detach_callback,
  handle, handle_all, do_run_loop, open_manager, set_up_manager, create_manager, init_hid_manager,
}
use iss_notify_firmware.Loader.Iokit.Attached.{gone}
use iss_notify_firmware.Loader.Iokit.Devices.{
  OpenDevices, Follows, Follows-refl, Follows-trans, Follows-if, quiet, listed,
  listed-remove_entries, attach_device-Follows,
}

not_first : (a b : Bool) → (a || b) ≡ false → (a ≡ false) × (b ≡ false)
not_first false b h = (refl, h)
not_first true b h = absurd (cc)

module _ {S T : Type 0} (sys : Framework S T) (devices : OpenDevices sys) where
  handle_all-opened :
      (events : List Event) (st : Session S) (x : ℕ)
      → devices.Open (handle_all sys events st).system x
      → devices.Open st.system x
  unfolding handle_all handle attach_callback detach_callback
  handle_all-opened [] st x o = o
  handle_all-opened (attached none ∷ events) st x o = handle_all-opened events st x o
  handle_all-opened (attached (some dev) ∷ events) st x o =
      ((attach_device-Follows sys devices dev st).opened x
        (handle_all-opened events (attach_device sys dev st) x o)).0
  handle_all-opened (detached none ∷ events) st x o = handle_all-opened events st x o
  handle_all-opened (detached (some dev) ∷ events) st x o = handle_all-opened events _ x o

  handle_all-listed :
      (events : List Event) (st : Session S) (x : ℕ)
      → gone x events ≡ false
      → devices.Open (handle_all sys events st).system x
      → listed x st.usb_list ≡ true
      → listed x (handle_all sys events st).usb_list ≡ true
  unfolding handle_all handle attach_callback detach_callback
  handle_all-listed [] st x h o l = l
  handle_all-listed (attached none ∷ events) st x h o l = handle_all-listed events st x h o l
  handle_all-listed (attached (some dev) ∷ events) st x h o l =
      let st' = attach_device sys dev st in
      handle_all-listed events st' x h o (
        ((attach_device-Follows sys devices dev st).opened x (handle_all-opened events st' x o)).1
          l)
  handle_all-listed (detached none ∷ events) st x h o l = handle_all-listed events st x h o l
  handle_all-listed (detached (some dev) ∷ events) st x h o l =
      let (other, rest) = not_first (x == dev) (gone x events) h in
      handle_all-listed events _ x rest o (listed-remove_entries x dev st.usb_list other ∙ l)

  handle_all-same :
      (events : List Event) (st : Session S)
      → (handle_all sys events st).iokit_teensy_reference ≡ st.iokit_teensy_reference
  unfolding handle_all handle attach_callback detach_callback
  handle_all-same [] st = refl
  handle_all-same (attached none ∷ events) st = handle_all-same events st
  handle_all-same (attached (some dev) ∷ events) st =
      handle_all-same events (attach_device sys dev st)
      ∙ (attach_device-Follows sys devices dev st).same
  handle_all-same (detached none ∷ events) st = handle_all-same events st
  handle_all-same (detached (some dev) ∷ events) st = handle_all-same events _

  pub do_run_loop-Follows : (st : Session S) → Follows sys devices st (do_run_loop sys st)
  unfolding do_run_loop
  do_run_loop-Follows st =
      let events = (sys.run_loop st.system).0 in
      let st' = record st { system = (sys.run_loop st.system).1 } in
      record {
        opened = λ x o.
            let (o', stays) = devices.runs st.system x (handle_all-opened events st' x o) in
            (o', λ l. handle_all-listed events st' x stays o l);
        same = handle_all-same events st';
      }

  open_manager-opened :
      (m dict : ℕ) (s : S) (x : ℕ) → devices.Open (open_manager sys m dict s) x → devices.Open s x
  unfolding open_manager
  open_manager-opened m dict s x o =
      let s₁ = sys.set_matching m dict s in
      let s₂ = sys.release dict s₁ in
      let s₃ = sys.schedule m s₂ in
      let s₄ = sys.register_callbacks m s₃ in
      let s₅ = (sys.manager_open m s₄).1 in
      devices.matches m dict s x (
        devices.releases dict s₁ x (
          devices.schedules m s₂ x (
            devices.registers m s₃ x
              (devices.manages m s₄ x (ends (sys.manager_open m s₄).0 s₅ o)))))
    where
      ends :
          (ok : Bool) (s' : S)
          → devices.Open (if ok then s' else sys.release m (sys.unschedule m s')) x
          → devices.Open s' x
      ends true s' o' = o'
      ends false s' o' = devices.unschedules m s' x (devices.releases m (sys.unschedule m s') x o')

  set_up_manager-Follows :
      (m : ℕ) (st : Session S) → Follows sys devices st (set_up_manager sys m st)
  unfolding set_up_manager
  set_up_manager-Follows m st =
      let s = (sys.dictionary_create st.system).1 in
      elim (Option-cases (sys.dictionary_create st.system).0) [
        | inl q ↦ rw (q, set_up_manager) (quiet sys devices st s (some m) (devices.makes st.system))
        | inr (dict, q) ↦
            rw (q, set_up_manager)
              (quiet sys devices st (open_manager sys m dict s) (some m)
                (λ x o. devices.makes st.system x (open_manager-opened m dict s x o)))
      ]

  create_manager-Follows : (st : Session S) → Follows sys devices st (create_manager sys st)
  unfolding create_manager
  create_manager-Follows st =
      let s = (sys.manager_create st.system).1 in
      let made = record st { system = s } in
      elim (Option-cases (sys.manager_create st.system).0) [
        | inl q ↦ rw (q, create_manager) (quiet sys devices st s none (devices.creates st.system))
        | inr ((m, proper), q) ↦
            rw (q, create_manager)
              (Follows-if sys devices proper
                (Follows-trans sys devices
                  (quiet sys devices st s st.hid_manager (devices.creates st.system))
                  (set_up_manager-Follows m made))
                (quiet sys devices st (sys.release m s) (some m)
                  (λ x o. devices.creates st.system x (devices.releases m s x o))))
      ]

  inits :
      (m : Option ℕ) (st : Session S)
      → Follows sys devices st (elim m [ none ↦ create_manager sys st | some manager ↦ st ])
  inits none st = create_manager-Follows st
  inits (some m) st = Follows-refl sys devices st

  pub init_hid_manager-Follows : (st : Session S) → Follows sys devices st (init_hid_manager sys st)
  unfolding init_hid_manager
  init_hid_manager-Follows st = inits st.hid_manager st
