-- ===== src/Loader/Main/Upload.antt =====
-- The program as a whole: what the chip holds in the end.
use iss_notify_firmware.Common.{
  ℕ, ◌+◌, ◌*◌, ◌^◌, ◌≤◌, ◌<◌, inl, inr, Bool, true, false, some, List, Bytes, ◌≡◌, refl, arith, ltb,
  ◌==◌, if◌then◌else◌, ap, ◌∙◌,
}
use iss_notify_firmware.Loader.{Image}
use iss_notify_firmware.Loader.Blocks.{byte_at}
use iss_notify_firmware.Loader.Options.{Options, defaults, parse_options}
use iss_notify_firmware.Loader.Options.Chips.{IsChip, Sized, parse_options-Parsed}
use iss_notify_firmware.Loader.Flash.{program-byte_at}
use iss_notify_firmware.Loader.Wanted.{HalfKay}
use iss_notify_firmware.Loader.Main.{
  Host, went, read_file, read_again, boot, program_device, open_device, serve, main_with, main,
}
use iss_notify_firmware.Loader.Main.Waiting.{Appears, open_device_waiting}

-- A chip below 64 K is a number of whole blocks.
IsChip-blocks :
    (code block : ℕ)
    → IsChip code block
    → code < 2 ^ 16
    → (blocks : ℕ) × (code ≡ blocks * block) × (blocks ≤ code) × (1 ≤ block)
IsChip-blocks code block (inl (b, inl c)) h = (64, rw (b, c) refl, omega arith, omega arith)
IsChip-blocks code block (inl (b, inr (inl c))) h = (128, rw (b, c) refl, omega arith, omega arith)
IsChip-blocks code block (inl (b, inr (inr c))) h = (256, rw (b, c) refl, omega arith, omega arith)
IsChip-blocks code block (inr (b, inl c)) h = absurd (omega arith)
IsChip-blocks code block (inr (b, inr c)) h = absurd (omega arith)

module _ {D : Type 0} (host : Host D) (kay : HalfKay host.teensy) where
  upload-byte_at :
      (o : Options) (im : Image) (d : D)
      → IsChip o.code_size o.block_size
      → o.code_size < 2 ^ 16
      → (d' : D) × (program_device host o im d ≡ went (host.teensy_close (boot host o d')))
        × ((x : ℕ) → x < o.code_size → kay.flash d' x ≡ byte_at im x)
  unfolding program_device
  upload-byte_at o im d chip small =
      let (blocks, whole, few, some_bytes) = IsChip-blocks o.code_size o.block_size chip small in
      let (d', e, p) =
        program-byte_at host.teensy kay o.code_size o.block_size im (o.code_size + 1) blocks d
          (omega arith) whole some_bytes small in
      (d', rw (e, program_device) refl, p)

  Sized-IsChip : (o : Options) → Sized o → 0 < o.code_size → IsChip o.code_size o.block_size
  Sized-IsChip o (inl (none, _)) h = absurd (omega arith)
  Sized-IsChip o (inr chip) h = chip

  main_parsed :
      (fuel : ℕ) (args : List Bytes) (o : Options) (name : Bytes) (d : D)
      → parse_options args defaults ≡ some o
      → o.filename ≡ some name
      → (o.code_size == 0) ≡ false
      → main host fuel args d ≡ serve host fuel o name d
  unfolding main main_with
  main_parsed fuel args o name d parsed named sized =
      rw (parsed, main) (ap (λ f. main_with host fuel f o d) named ∙ rw (sized, main_with) refl)

  serve_lem :
      (fuel : ℕ) (o : Options) (name : Bytes) (im im' : Image) (waited : Bool) (d d' : D)
      → read_file host name d ≡ some (went im)
      → open_device host fuel o.wait_for_device_to_appear o.hard_reboot_device false d
        ≡ some (went (waited, d'))
      → read_again host waited name im d' ≡ some (went im')
      → serve host fuel o name d ≡ some (program_device host o im' d')
  unfolding serve
  serve_lem fuel o name im im' waited d d' read opened again =
      rw (read, serve) (rw opened (rw again refl))

  read_again_lem :
      (name : Bytes) (im im' : Image) (waited : Bool) (d : D)
      → read_file host name d ≡ some (went im')
      → read_again host waited name im d ≡ some (went (if waited then im' else im))
  unfolding read_again
  read_again_lem name im im' true d read = read
  read_again_lem name im im' false d read = refl

  pub main-byte_at :
      (fuel k : ℕ) (args : List Bytes) (o : Options) (name : Bytes) (im im' : Image) (d last : D)
      → k < fuel
      → parse_options args defaults ≡ some o
      → o.filename ≡ some name
      → 0 < o.code_size
      → o.code_size < 2 ^ 16
      → Appears host k o.wait_for_device_to_appear o.hard_reboot_device d last
      → read_file host name d ≡ some (went im)
      → read_file host name last ≡ some (went im')
      → (d' : D) × (main host fuel args d ≡ some (went (host.teensy_close (boot host o d'))))
        × ((x : ℕ) → x < o.code_size → kay.flash d' x ≡ byte_at (if ltb 0 k then im' else im) x)
  main-byte_at fuel k args o name im im' d last more parsed named sized small appears read read' =
      let waited = ltb 0 k in
      let known = (parse_options-Parsed args defaults o parsed (inl (refl, refl))).1 in
      let (d', e, p) =
        upload-byte_at o (if waited then im' else im) last (Sized-IsChip o known sized) small in
      (
        d',
        main_parsed fuel args o name d parsed named (ground arith)
            ∙ serve_lem fuel o name im (if waited then im' else im) waited d last read
                (open_device_waiting host fuel k o.wait_for_device_to_appear o.hard_reboot_device d
                  last appears more)
                (read_again_lem name im im' waited last read')
            ∙ ap some e,
        p,
      )
