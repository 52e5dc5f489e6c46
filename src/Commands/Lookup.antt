-- ===== src/Commands/Lookup.antt =====
-- The search in the table of the commands.
use iss_notify_firmware.Common.{
  ℕ, Option, some, List, [], ◌∷◌, length, All, get_elem?, ◌≡◌, ◌≢◌, refl, arith, ne→==-false, zero,
  suc, ==_self, ap, All-get_elem?,
}
use iss_notify_firmware.Twi.{Twi}
use iss_notify_firmware.Firmware.{Firmware}
use iss_notify_firmware.Commands.Dispatch.{Command, commands, respond, dispatch}

-- There are N_CMDS entries.
commands_count : length commands ≡ 13
commands_count = refl

-- No letter stands twice.
abbrev Distinct : List (ℕ × Command) → Type 0
Distinct [] = Unit
Distinct ((k, command) ∷ table) = All (λ e. k ≢ e.0) table × Distinct table

commands-Distinct : Distinct commands
commands-Distinct = omega arith

first_entry :
    (k k' : ℕ) (c c' : Command)
    → ◌≡◌ {A = Option (ℕ × Command)} (some (k, c)) (some (k', c'))
    → (k ≡ k') × (c ≡ c')
first_entry k k' c c' h = (cc, cc)

module _ {B : Type 0} (twi : Twi B) (fw : Firmware B) where
  dispatch-Distinct :
      (table : List (ℕ × Command)) (i letter : ℕ) (command : Command)
      → Distinct table
      → get_elem? table i ≡ some (letter, command)
      → dispatch twi table letter fw ≡ respond twi command fw
  unfolding dispatch
  dispatch-Distinct [] i letter command d h = absurd (cc)
  dispatch-Distinct ((k, c) ∷ table) zero letter command d h =
      let same = first_entry k letter c command h in
      rw (same.0, ==_self) (ap (λ x. respond twi x fw) same.1)
  dispatch-Distinct ((k, c) ∷ table) (suc i) letter command d h =
      rw (ne→==-false k letter (All-get_elem? (λ e. k ≢ e.0) table i d.0 h))
        (dispatch-Distinct table i letter command d.1 h)

  pub dispatch_entry :
      (i letter : ℕ) (command : Command)
      → get_elem? commands i ≡ some (letter, command)
      → dispatch twi commands letter fw ≡ respond twi command fw
  dispatch_entry i letter command h =
      dispatch-Distinct commands i letter command commands-Distinct h

  dispatch_other_in :
      (table : List (ℕ × Command)) (c : ℕ)
      → All (λ e. e.0 ≢ c) table
      → dispatch twi table c fw ≡ some fw
  unfolding dispatch
  dispatch_other_in [] c h = refl
  dispatch_other_in ((k, command) ∷ table) c h =
      rw (ne→==-false k c h.0) (dispatch_other_in table c h.1)

  dispatch_other : (c : ℕ) → All (λ e. e.0 ≢ c) commands → dispatch twi commands c fw ≡ some fw
  dispatch_other c h = dispatch_other_in commands c h
