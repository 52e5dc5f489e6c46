-- ===== src/Loader/Main/Waiting.antt =====
-- The loop that waits for the device: it ends as soon as the device is there.
use iss_notify_firmware.Common.{
  ℕ, zero, suc, ◌<◌, Bool, true, false, some, ◌≡◌, refl, arith, ltb, ap, ◌∙◌,
}
use iss_notify_firmware.Loader.Main.{Host, went, open_device}

module _ {D : Type 0} (host : Host D) where
  -- From a state to another: the device is opened after so many rounds in which it was not there.
  -- In the first of them a hard reboot is wanted and is done, or none is wanted and the program
  -- may wait; in those behind it waits.
  abbrev pub Appears : ℕ → Bool → Bool → D → D → Type 0
  Appears zero wait reboot d last = host.teensy_open d ≡ some (went (true, last))
  Appears (suc k) wait true d last =
      (d' : D) × (d'' : D) × (host.teensy_open d ≡ some (went (false, d')))
      × (host.hard_reboot d' ≡ some (went (true, d'')))
      × Appears k true false (host.delay d'') last
  Appears (suc k) wait false d last =
      (d' : D) × (host.teensy_open d ≡ some (went (false, d')))
      × (wait ≡ true)
      × Appears k true false (host.delay d') last

  late : (k : ℕ) → true ≡ ltb 0 (suc k)
  late k = ground arith

  waiting :
      (fuel k : ℕ) (d last : D)
      → Appears k true false d last
      → k < fuel
      → open_device host fuel true false true d ≡ some (went (true, last))
  unfolding open_device
  waiting zero k d last h more = absurd (omega arith)
  waiting (suc fuel) zero d last h more = rw (h, open_device) refl
  waiting (suc fuel) (suc k) d last (d', absent, _, later) more =
      rw (absent, open_device) (waiting fuel k (host.delay d') last later (omega arith))

  -- The loop opens the device, and tells if it has waited.
  pub open_device_waiting :
      (fuel k : ℕ) (wait reboot : Bool) (d last : D)
      → Appears k wait reboot d last
      → k < fuel
      → open_device host fuel wait reboot false d ≡ some (went (ltb 0 k, last))
  unfolding open_device
  open_device_waiting zero k wait reboot d last h more = absurd (omega arith)
  open_device_waiting (suc fuel) zero wait reboot d last h more = rw (h, open_device) refl
  open_device_waiting (suc fuel) (suc k) wait true d last (d', d'', absent, done, later) more =
      rw (absent, open_device) (rw done (waiting fuel k (host.delay d'') last later (omega arith)))
      ∙ ap (λ w. some (went (w, last))) (late k)
  open_device_waiting (suc fuel) (suc k) wait false d last (d', absent, may, later) more =
      rw (absent, open_device) (rw may (waiting fuel k (host.delay d') last later (omega arith)))
      ∙ ap (λ w. some (went (w, last))) (late k)
