-- ===== src/Loader/Win32/Search.antt =====
-- The search for the device ends, and adds at most the file that it brings to the open ones.
use iss_notify_firmware.Common.{
  ℕ, zero, suc, ◌+◌, ◌<◌, ◌≤◌, Bool, true, false, ◌||◌, not, Option, none, some, List, ◌∷◌, Bytes,
  ◌≡◌, ◌∙◌, ◌==◌, if◌then◌else◌, ◌>>=◌, Option-cases, inl, inr, subst, arith,
}
use iss_notify_firmware.Loader.Win32.{
  Windows, check_attributes, open_path, read_details, try_interface, search_interfaces,
  open_usb_device, open_either,
}

-- The open files, the newest first, and a bound for the numbers of the interfaces.
pub record FileTable {S : Type 0} (sys : Windows S) : Type 0 where
  pub held : S → List ℕ
  pub limit : ℕ
  pub ends : (info index : ℕ) (s : S) → limit ≤ index → (sys.enum_interfaces info index s).0 ≡ none
  pub lists : (s : S) → held (sys.get_class_devs s).1 ≡ held s
  pub destroys : (info : ℕ) (s : S) → held (sys.destroy_list info s) ≡ held s
  pub enumerates : (info index : ℕ) (s : S) → held (sys.enum_interfaces info index s).1 ≡ held s
  pub measures : (info iface : ℕ) (s : S) → held (sys.required_size info iface s).1 ≡ held s
  pub allocates : (size : ℕ) (s : S) → held (sys.malloc size s).1 ≡ held s
  pub frees : (details : ℕ) (s : S) → held (sys.free details s) ≡ held s
  pub details :
      (info iface size : ℕ) (s : S) → held (sys.interface_detail info iface size s).1 ≡ held s
  pub opens :
      (path : Bytes) (s : S) (h : ℕ)
      → (sys.create_file path s).0 ≡ some h
      → held (sys.create_file path s).1 ≡ h ∷ held s
  pub fails :
      (path : Bytes) (s : S)
      → (sys.create_file path s).0 ≡ none
      → held (sys.create_file path s).1 ≡ held s
  pub attributes : (h : ℕ) (s : S) → held (sys.get_attributes h s).1 ≡ held s
  pub closes :
      (h : ℕ) (s : S) (rest : List ℕ) → held s ≡ h ∷ rest → held (sys.close_handle h s) ≡ rest
  pub events : (s : S) → held (sys.create_event s).1 ≡ held s
  pub resets : (s : S) → held (sys.reset_event_address s) ≡ held s
  pub writes : (h event : ℕ) (buf : Bytes) (s : S) → held (sys.write_file h event buf s).1 ≡ held s
  pub waits : (event timeout : ℕ) (s : S) → held (sys.wait_for event timeout s).1 ≡ held s
  pub cancels : (h : ℕ) (s : S) → held (sys.cancel_io h s) ≡ held s
  pub results : (h : ℕ) (s : S) → held (sys.overlapped_result h s).1 ≡ held s

abbrev pub of_option : Option ℕ → List ℕ → List ℕ
of_option none hs = hs
of_option (some h) hs = h ∷ hs

module _ {S : Type 0} (sys : Windows S) (table : FileTable sys) where
  -- A step adds the file that it brings.
  abbrev pub Adds : Option ℕ × S → List ℕ → Type 0
  Adds (h, s) hs = table.held s ≡ of_option h hs

  checked :
      (b : Bool) (info h : ℕ) (s : S) (hs : List ℕ)
      → table.held s ≡ h ∷ hs
      → Adds (if b then (none, sys.close_handle h s) else (some h, sys.destroy_list info s)) hs
  checked true info h s hs e = table.closes h s hs e
  checked false info h s hs e = table.destroys info s ∙ e

  check_attributes-Adds :
      (vid pid info h : ℕ) (s : S) (hs : List ℕ)
      → table.held s ≡ h ∷ hs
      → Adds (check_attributes sys vid pid info h s) hs
  unfolding check_attributes
  check_attributes-Adds vid pid info h s hs e =
      let s' = (sys.get_attributes h s).1 in
      let same = table.attributes h s ∙ e in
      elim (Option-cases (sys.get_attributes h s).0) [
        | inl q ↦ rw (q, check_attributes) (table.closes h s' hs same)
        | inr ((vendor, product), q) ↦
            rw (q, check_attributes)
              (checked (not (vendor == vid) || not (product == pid)) info h s' hs same)
      ]

  open_path-Adds :
      (vid pid info details : ℕ) (path : Bytes) (s : S)
      → Adds (open_path sys vid pid info details path s) (table.held s)
  unfolding open_path
  open_path-Adds vid pid info details path s =
      let s' = (sys.create_file path s).1 in
      elim (Option-cases (sys.create_file path s).0) [
        | inl q ↦ rw (q, open_path) (table.frees details s' ∙ table.fails path s q)
        | inr (h, q) ↦
            rw (q, open_path)
              (check_attributes-Adds vid pid info h (sys.free details s') (table.held s)
                (table.frees details s' ∙ table.opens path s h q))
      ]

  read_details-Adds :
      (vid pid info iface size details : ℕ) (s : S)
      → Adds (read_details sys vid pid info iface size details s) (table.held s)
  unfolding read_details
  read_details-Adds vid pid info iface size details s =
      let s' = (sys.interface_detail info iface size s).1 in
      let same = table.details info iface size s in
      elim (Option-cases (sys.interface_detail info iface size s).0) [
        | inl q ↦ rw (q, read_details) (table.frees details s' ∙ same)
        | inr (path, q) ↦
            rw (q, read_details)
              (subst (Adds (open_path sys vid pid info details path s')) same
                (open_path-Adds vid pid info details path s'))
      ]

  try_interface-Adds :
      (vid pid info iface : ℕ) (s : S)
      → Adds (try_interface sys vid pid info iface s) (table.held s)
  unfolding try_interface
  try_interface-Adds vid pid info iface s =
      let size = (sys.required_size info iface s).0 in
      let s' = (sys.required_size info iface s).1 in
      let s'' = (sys.malloc size s').1 in
      let same = table.allocates size s' ∙ table.measures info iface s in
      elim (Option-cases (sys.malloc size s').0) [
        | inl q ↦ rw (q, try_interface) same
        | inr (details, q) ↦
            rw (q, try_interface)
              (subst (Adds (read_details sys vid pid info iface size details s'')) same
                (read_details-Adds vid pid info iface size details s''))
      ]

  -- A search that ends, and adds the file that it brings.
  abbrev pub Ends : Option (Option ℕ × S) → List ℕ → Type 0
  Ends none hs = ⊥
  Ends (some (h, s)) hs = Adds (h, s) hs

  -- A further attempt behind one that has brought nothing.
  next :
      (r : Option ℕ × S) (hs : List ℕ) (more : S → Option (Option ℕ × S))
      → Adds r hs
      → ((s : S) → table.held s ≡ hs → Ends (more s) hs)
      → Ends (let (h, s) = r in elim h [ none ↦ more s | some h' ↦ some (some h', s) ]) hs
  next (none, s) hs more e k = k s e
  next (some h, s) hs more e k = e

  -- An interface that is there has a number below the limit.
  inside :
      (info index iface : ℕ) (s : S)
      → (sys.enum_interfaces info index s).0 ≡ some iface
      → ¬ (table.limit ≤ index)
  inside info index iface s q le = let ended = table.ends info index s le in absurd (cc)

  search_interfaces-Ends :
      (fuel vid pid info index : ℕ) (s : S) (hs : List ℕ)
      → index ≤ table.limit
      → table.limit < index + fuel
      → table.held s ≡ hs
      → Ends (search_interfaces sys fuel vid pid info index s) hs
  unfolding search_interfaces
  search_interfaces-Ends zero vid pid info index s hs below enough e = absurd (omega arith)
  search_interfaces-Ends (suc fuel) vid pid info index s hs below enough e =
      let s' = (sys.enum_interfaces info index s).1 in
      let same = table.enumerates info index s ∙ e in
      elim (Option-cases (sys.enum_interfaces info index s).0) [
        | inl q ↦ rw (q, search_interfaces) (table.destroys info s' ∙ same)
        | inr (iface, q) ↦
            (let more = inside info index iface s q in
              rw (q, search_interfaces)
                (next (try_interface sys vid pid info iface s') hs
                  (search_interfaces sys fuel vid pid info (index + 1))
                  (subst (Adds (try_interface sys vid pid info iface s')) same
                    (try_interface-Adds vid pid info iface s'))
                  (λ s'' e'.
                    search_interfaces-Ends fuel vid pid info (index + 1) s'' hs (omega arith)
                      (omega arith) e')))
      ]

  open_usb_device-Ends :
      (fuel vid pid : ℕ) (s : S) (hs : List ℕ)
      → table.limit < fuel
      → table.held s ≡ hs
      → Ends (open_usb_device sys fuel vid pid s) hs
  unfolding open_usb_device
  open_usb_device-Ends fuel vid pid s hs enough e =
      let s' = (sys.get_class_devs s).1 in
      let same = table.lists s ∙ e in
      elim (Option-cases (sys.get_class_devs s).0) [
        | inl q ↦ rw (q, open_usb_device) same
        | inr (info, q) ↦
            rw (q, open_usb_device)
              (search_interfaces-Ends fuel vid pid info 0 s' hs (omega arith) (omega arith) same)
      ]

  either :
      (r : Option (Option ℕ × S)) (hs : List ℕ) (more : S → Option (Option ℕ × S))
      → Ends r hs
      → ((s : S) → table.held s ≡ hs → Ends (more s) hs)
      → Ends (r >>= λ (h, s). elim h [ none ↦ more s | some h' ↦ some (some h', s) ]) hs
  either none hs more e k = absurd (e)
  either (some r) hs more e k = next r hs more e k

  pub open_either-Ends :
      (fuel pid : ℕ) (s : S) (hs : List ℕ)
      → table.limit < fuel
      → table.held s ≡ hs
      → Ends (open_either sys fuel pid s) hs
  unfolding open_either
  open_either-Ends fuel pid s hs enough e =
      either (open_usb_device sys fuel 0x16C0 pid s) hs (open_usb_device sys fuel 0x03eb 0x2067)
        (open_usb_device-Ends fuel 0x16C0 pid s hs enough e)
        (λ s' e'. open_usb_device-Ends fuel 0x03eb 0x2067 s' hs enough e')
