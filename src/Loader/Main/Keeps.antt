-- ===== src/Loader/Main/Keeps.antt =====
-- What the device's functions keep true, the program keeps true up to its last call of
-- `teensy_close`.
use iss_notify_firmware.Common.{
  ℕ, zero, suc, ◌+◌, ◌-◌, Bool, true, false, ◌&&◌, not, Option, none, some, List, ◌∷◌, ◌++◌, Bytes,
  ◌≡◌, refl, ltb, replicate, ◌==◌, if◌then◌else◌,
}
use iss_notify_firmware.Loader.{Image, ihex_bytes_within_range, ihex_get_data}
use iss_notify_firmware.Loader.Options.{Options, defaults, parse_options}
use iss_notify_firmware.Loader.Program.{block_address, write_block, program_block, program}
use iss_notify_firmware.Loader.Main.{
  Host, exited, went, write_error, unknown_mcu, open_device, read_file, read_again, boot,
  program_device, serve, main_with, main,
}
use iss_notify_firmware.Loader.Main.Outcome.{
  Brings, Goes, Brings->>=, Goes-and_then, Brings-elim, Goes-elim, Brings-if, Goes-if, Goes-any,
}

pub record Keeps {D : Type 0} (host : Host D) (P : D → Type 0) : Type 0 where
  pub opening : (d : D) → P d → Goes (λ r. P r.1) (host.teensy_open d)
  pub writing : (d : D) (buf : List ℕ) (first : Bool) → P d → P (host.teensy.write d buf first).1
  pub rebooting : (d : D) → P d → Goes (λ r. P r.1) (host.hard_reboot d)
  pub delaying : (d : D) → P d → P (host.delay d)

-- A state behind `teensy_close`.
abbrev pub Closed : {D : Type 0} → Host D → (D → Type 0) → D → Type 0
Closed {D} host P d' = (last : D) × (d' ≡ host.teensy_close last) × P last

module _ {D : Type 0} (host : Host D) (P : D → Type 0) (keeps : Keeps host P) where
  open_device-Keeps :
      (fuel : ℕ) (wait reboot waited : Bool) (d : D)
      → P d
      → Goes (λ r. P r.1) (open_device host fuel wait reboot waited d)
  unfolding open_device
  open_device-Keeps zero wait reboot waited d p = tt
  open_device-Keeps (suc fuel) wait reboot waited d p =
      Goes-and_then (λ r. P r.1) (λ r. P r.1) (host.teensy_open d) _ (keeps.opening d p)
        (λ (opened, d') p'.
          Goes-elim (λ r. P r.1) opened _ _ p'
            (Goes-elim (λ r. P r.1) reboot _ _
              (Goes-and_then (λ r. P r.1) (λ r. P r.1) (host.hard_reboot d') _
                (keeps.rebooting d' p')
                (λ (found, d'') p''.
                  Goes-elim (λ r. P r.1) found _ _
                    (open_device-Keeps fuel true false true (host.delay d'')
                      (keeps.delaying d'' p''))
                    tt))
              (Goes-elim (λ r. P r.1) wait _ _
                (open_device-Keeps fuel true false true (host.delay d') (keeps.delaying d' p'))
                tt)))

  program_block-Keeps :
      (code_size block_size : ℕ) (im : Image) (addr : ℕ) (first : Bool) (d : D)
      → P d
      → Brings (λ r. P r.1) (program_block host.teensy code_size block_size im addr first d)
  unfolding program_block write_block
  program_block-Keeps code_size block_size im addr first d p =
      let packet = block_address code_size addr ++ ihex_get_data addr block_size im in
      Brings-if (λ r. P r.1)
        (ltb 0 addr && not (ihex_bytes_within_range addr (addr + block_size - 1) im)) _ _ p
        (Brings-if (λ (r : Bool × D). P r.1) (host.teensy.write d packet first).0
          (some (false, (host.teensy.write d packet first).1)) none (keeps.writing d packet first p)
          tt)

  program-Keeps :
      (code_size block_size : ℕ) (im : Image) (fuel addr : ℕ) (first : Bool) (d : D)
      → P d
      → Brings P (program host.teensy code_size block_size im fuel addr first d)
  unfolding program
  program-Keeps code_size block_size im zero addr first d p = tt
  program-Keeps code_size block_size im (suc fuel) addr first d p =
      Brings-elim P (ltb addr code_size) _ _
        (Brings->>= (λ r. P r.1) P (program_block host.teensy code_size block_size im addr first d)
          _ (program_block-Keeps code_size block_size im addr first d p)
          (λ (first', d') p'.
            program-Keeps code_size block_size im fuel (addr + block_size) first' d' p'))
        p

  boot_if :
      (b : Bool) (o : Options) (d : D)
      → P d
      → P (if b then (host.teensy.write d (0xFF ∷ 0xFF ∷ replicate o.block_size 0) false).1 else d)
  boot_if true o d p = keeps.writing d (0xFF ∷ 0xFF ∷ replicate o.block_size 0) false p
  boot_if false o d p = p

  boot-Keeps : (o : Options) (d : D) → P d → P (boot host o d)
  unfolding boot
  boot-Keeps o d p = boot_if o.reboot_after_programming o d p

  programmed :
      (o : Options) (r : Option D)
      → Brings P r
      → Goes (Closed host P) (
          some (elim r [
            | none ↦ exited write_error
            | some d' ↦ went (host.teensy_close (boot host o d'))
          ]))
  programmed o none h = tt
  programmed o (some d') p = (boot host o d', refl, boot-Keeps o d' p)

  upload-Keeps :
      (o : Options) (im : Image) (d : D)
      → P d
      → Goes (Closed host P) (some (program_device host o im d))
  unfolding program_device
  upload-Keeps o im d p =
      programmed o (program host.teensy o.code_size o.block_size im (o.code_size + 1) 0 true d)
        (program-Keeps o.code_size o.block_size im (o.code_size + 1) 0 true d p)

  serve-Keeps :
      (fuel : ℕ) (o : Options) (name : Bytes) (d : D)
      → P d
      → Goes (Closed host P) (serve host fuel o name d)
  unfolding serve
  serve-Keeps fuel o name d p =
      Goes-and_then (λ im. Unit) (Closed host P) (read_file host name d) _
        (Goes-any (read_file host name d))
        (λ im _.
          Goes-and_then (λ r. P r.1) (Closed host P)
            (open_device host fuel o.wait_for_device_to_appear o.hard_reboot_device false d) _
            (open_device-Keeps fuel o.wait_for_device_to_appear o.hard_reboot_device false d p)
            (λ (waited, d') p'.
              Goes-and_then (λ im. Unit) (Closed host P) (read_again host waited name im d') _
                (Goes-any (read_again host waited name im d')) (λ im' _. upload-Keeps o im' d' p')))

  main_with-Keeps :
      (fuel : ℕ) (name : Option Bytes) (o : Options) (d : D)
      → P d
      → Goes (Closed host P) (main_with host fuel name o d)
  unfolding main_with
  main_with-Keeps fuel none o d p = tt
  main_with-Keeps fuel (some name) o d p =
      Goes-if (Closed host P) (o.code_size == 0) _ _ tt (serve-Keeps fuel o name d p)

  parsed :
      (fuel : ℕ) (r : Option Options) (d : D)
      → P d
      → Goes (Closed host P) (elim r [
        | none ↦ some (exited unknown_mcu)
        | some o ↦ main_with host fuel o.filename o d
      ])
  parsed fuel none d p = tt
  parsed fuel (some o) d p = main_with-Keeps fuel o.filename o d p

  -- A run that does not exit.
  pub main-Keeps :
      (fuel : ℕ) (args : List Bytes) (d : D) → P d → Goes (Closed host P) (main host fuel args d)
  unfolding main
  main-Keeps fuel args d p = parsed fuel (parse_options args defaults) d p
