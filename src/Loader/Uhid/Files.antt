-- ===== src/Loader/Uhid/Files.antt =====
-- No file stays open but the one in `uhid_teensy_fd`, unless the program has died.
use iss_notify_firmware.Common.{
  ℕ, Bool, true, false, ◌&&◌, Option, none, some, List, [], ◌∷◌, ◌++◌, Bytes, codes, take, ◌≡◌,
  refl, ◌∙◌, ◌==◌, if◌then◌else◌, ◌>>=◌, Option-cases, inl, inr, is_some, subst,
}
use iss_notify_firmware.Loader.Options.{starts_with}
use iss_notify_firmware.Loader.Uhid.{
  Unix, Session, check_info, try_entry, search_entries, open_usb_device, open_either, close_fd,
  teensy_close, teensy_open, teensy_write, reboot_fd, hard_reboot,
}

-- The open files, the newest first.
pub record FileTable {S : Type 0} (sys : Unix S) : Type 0 where
  pub held : S → List ℕ
  pub opendir : (s : S) → held (sys.opendir s).1 ≡ held s
  pub closedir : (s : S) → held (sys.closedir s) ≡ held s
  pub opens :
      (path : Bytes) (s : S) (fd : ℕ)
      → (sys.open_file path s).0 ≡ some fd
      → held (sys.open_file path s).1 ≡ fd ∷ held s
  pub fails :
      (path : Bytes) (s : S)
      → (sys.open_file path s).0 ≡ none
      → held (sys.open_file path s).1 ≡ held s
  pub infos : (fd : ℕ) (s : S) → held (sys.get_deviceinfo fd s).1 ≡ held s
  pub writes : (fd : Option ℕ) (buf : Bytes) (s : S) → held (sys.write fd buf s).1 ≡ held s
  pub delays : (s : S) → held (sys.delay s) ≡ held s
  pub closes : (fd : ℕ) (s : S) (rest : List ℕ) → held s ≡ fd ∷ rest → held (sys.close fd s) ≡ rest

abbrev pub of_option : Option ℕ → List ℕ → List ℕ
of_option none fds = fds
of_option (some fd) fds = fd ∷ fds

module _ {S : Type 0} (sys : Unix S) (table : FileTable sys) where
  -- A search that ends adds the file that it brings.
  abbrev Adds : Option (Option ℕ × S) → List ℕ → Type 0
  Adds none fds = Unit
  Adds (some (fd, s)) fds = table.held s ≡ of_option fd fds

  Adds-if :
      (b : Bool) (x : Option (Option ℕ × S)) (s : S) (fds : List ℕ)
      → Adds x fds
      → table.held s ≡ fds
      → Adds (if b then x else some (none, s)) fds
  Adds-if true x s fds h k = h
  Adds-if false x s fds h k = k

  checked :
      (b : Bool) (fd : ℕ) (s : S) (fds : List ℕ)
      → table.held s ≡ fd ∷ fds
      → Adds (some (if b then (some fd, sys.closedir s) else (none, sys.close fd s))) fds
  checked true fd s fds e = table.closedir s ∙ e
  checked false fd s fds e = table.closes fd s fds e

  check_info-Adds :
      (vid pid fd : ℕ) (s : S) (fds : List ℕ)
      → table.held s ≡ fd ∷ fds
      → Adds (check_info sys vid pid fd s) fds
  unfolding check_info
  check_info-Adds vid pid fd s fds e =
      let s' = (sys.get_deviceinfo fd s).1 in
      let same = table.infos fd s ∙ e in
      elim (Option-cases (sys.get_deviceinfo fd s).0) [
        | inl q ↦ rw (q, check_info) tt
        | inr ((vendor, product), q) ↦
            rw (q, check_info) (checked (vendor == vid && product == pid) fd s' fds same)
      ]

  opened :
      (vid pid : ℕ) (path : Bytes) (s : S)
      → Adds
          (let (fd, s') = sys.open_file path s in
            elim fd [ none ↦ some (none, s') | some fd' ↦ check_info sys vid pid fd' s' ])
          (table.held s)
  opened vid pid path s = elim (Option-cases (sys.open_file path s).0) [
    | inl q ↦ rw q (table.fails path s q)
    | inr (fd, q) ↦ rw q (
        check_info-Adds vid pid fd (sys.open_file path s).1 (table.held s)
          (table.opens path s fd q))
  ]

  -- An entry that does not end the search.
  try_entry-Adds :
      (vid pid : ℕ) (name : Bytes) (s : S) → Adds (try_entry sys vid pid name s) (table.held s)
  unfolding try_entry
  try_entry-Adds vid pid name s =
      Adds-if (starts_with (codes "uhid") name) _ _ (table.held s)
        (opened vid pid (take 255 (codes "/dev/" ++ name)) s) refl

  -- A second attempt behind one that has brought nothing.
  Adds-else :
      (r : Option (Option ℕ × S)) (fds : List ℕ) (next : S → Option (Option ℕ × S))
      → Adds r fds
      → ((s : S) → table.held s ≡ fds → Adds (next s) fds)
      → Adds (r >>= λ (fd, s). elim fd [ none ↦ next s | some fd' ↦ some (some fd', s) ]) fds
  Adds-else none fds next h k = tt
  Adds-else (some (none, s)) fds next h k = k s h
  Adds-else (some (some fd, s)) fds next h k = h

  search_entries-Adds :
      (vid pid : ℕ) (names : List Bytes) (s : S) (fds : List ℕ)
      → table.held s ≡ fds
      → Adds (search_entries sys vid pid names s) fds
  unfolding search_entries
  search_entries-Adds vid pid [] s fds e = table.closedir s ∙ e
  search_entries-Adds vid pid (name ∷ names) s fds e =
      Adds-else (try_entry sys vid pid name s) fds (search_entries sys vid pid names)
        (subst (Adds (try_entry sys vid pid name s)) e (try_entry-Adds vid pid name s))
        (λ s' e'. search_entries-Adds vid pid names s' fds e')

  open_usb_device-Adds :
      (vid pid : ℕ) (s : S) (fds : List ℕ)
      → table.held s ≡ fds
      → Adds (open_usb_device sys vid pid s) fds
  unfolding open_usb_device
  open_usb_device-Adds vid pid s fds e =
      let s' = (sys.opendir s).1 in
      let same = table.opendir s ∙ e in
      Adds-if (sys.opendir s).0 _ _ fds (search_entries-Adds vid pid (sys.entries s') s' fds same)
        same

  open_either-Adds :
      (pid : ℕ) (s : S) (fds : List ℕ) → table.held s ≡ fds → Adds (open_either sys pid s) fds
  unfolding open_either
  open_either-Adds pid s fds e =
      Adds-else (open_usb_device sys 0x16C0 pid s) fds (open_usb_device sys 0x03eb 0x2067)
        (open_usb_device-Adds 0x16C0 pid s fds e)
        (λ s' e'. open_usb_device-Adds 0x03eb 0x2067 s' fds e')

  close_fd-held :
      (fd : Option ℕ) (s : S) → table.held s ≡ of_option fd [] → table.held (close_fd sys fd s) ≡ []
  unfolding close_fd
  close_fd-held none s e = e
  close_fd-held (some fd) s e = table.closes fd s [] e

  -- The files that are open are the one in the variable.
  abbrev pub Owned : Session S → Type 0
  Owned st = table.held st.unix ≡ of_option st.uhid_teensy_fd []

  -- The result of a function that may die.
  abbrev pub OwnedAfter : Option (Bool × Session S) → Type 0
  OwnedAfter none = Unit
  OwnedAfter (some (ok, st)) = Owned st

  stored :
      (r : Option (Option ℕ × S)) (st : Session S)
      → Adds r []
      → OwnedAfter (r >>= λ (fd, s). some (is_some fd, record st { unix = s; uhid_teensy_fd = fd }))
  stored none st h = tt
  stored (some (fd, s)) st h = h

  rebooted :
      (r : Option (Option ℕ × S)) (st : Session S)
      → Adds r (of_option st.uhid_teensy_fd [])
      → OwnedAfter (
          r >>= λ (fd, s). elim fd [
            | none ↦ some (false, record st { unix = s })
            | some fd' ↦ (let (ok, s') = reboot_fd sys fd' s in some (ok, record st { unix = s' }))
          ])
  unfolding reboot_fd
  rebooted none st h = tt
  rebooted (some (none, s)) st h = h
  rebooted (some (some fd, s)) st h =
      let s' = (sys.write (some fd) (codes "reboot") s).1 in
      table.closes fd (sys.delay s') (of_option st.uhid_teensy_fd [])
        (table.delays s' ∙ table.writes (some fd) (codes "reboot") s ∙ h)

  pub session-Owned :
      (st : Session S) (buf : Bytes) (long : Bool)
      → Owned st
      → OwnedAfter (teensy_open sys st)
        × (table.held (teensy_close sys st).unix ≡ [])
        × Owned (teensy_write sys st buf long).1
        × OwnedAfter (hard_reboot sys st)
  unfolding teensy_open teensy_close teensy_write hard_reboot
  session-Owned st buf long e =
      let closed = close_fd-held st.uhid_teensy_fd st.unix e in
      (
        stored (open_either sys 0x0478 (close_fd sys st.uhid_teensy_fd st.unix)) st
            (open_either-Adds 0x0478 (close_fd sys st.uhid_teensy_fd st.unix) [] closed),
        closed,
        table.writes st.uhid_teensy_fd buf st.unix ∙ e,
        rebooted (open_either sys 0x0477 st.unix) st
            (open_either-Adds 0x0477 st.unix (of_option st.uhid_teensy_fd []) e),
      )
