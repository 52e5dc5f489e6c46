-- ===== src/Tests/Upload.antt =====
-- A run of the boot loader's host application: the device appears after a hard reboot.
use iss_notify_firmware.Common.{
  ℕ, ◌+◌, ◌*◌, ◌<◌, Bool, true, false, some, List, [], ◌∷◌, Bytes, codes, ◌≡◌, refl, arith, ltb,
  ◌==◌, if◌then◌else◌, inl,
}
use iss_notify_firmware.Loader.Hex.File.{hex_file}
use iss_notify_firmware.Loader.Options.{
  Options, defaults, starts_with, same_text, family, sizes, set_mcu, parse_flag, parse_option,
  parse_options,
}
use iss_notify_firmware.Loader.Options.Chips.{Parsed, Sized, parse_options-Parsed}
use iss_notify_firmware.Loader.Wanted.{HalfKay, programmed}
use iss_notify_firmware.Loader.Main.{Host, went, boot, main}
use iss_notify_firmware.Loader.Main.Whole.{file_byte, main-hex_file}

-- The hard reboots so far, and the chip's memory.
abbrev Bench : Type 0
Bench = ℕ × (ℕ → ℕ)

abbrev write_bench : Bench → List ℕ → Bool → Bool × Bench
write_bench d [] first = (false, d)
write_bench d (low ∷ []) first = (false, d)
write_bench (n, f) (low ∷ high ∷ bs) first =
    (true, (n, programmed (if high * 256 + low == 0 then (λ x. 255) else f) (high * 256 + low) bs))

abbrev lines : List (ℕ × Bytes)
lines = (0x10, 1 ∷ 2 ∷ []) ∷ []

abbrev bench : Host Bench
bench = record {
  teensy = record { write = write_bench };
  teensy_open = λ d. some (went (ltb 0 d.0, d));
  teensy_close = λ d. d;
  hard_reboot = λ d. some (went (true, (d.0 + 1, d.1)));
  delay = λ d. d;
  content = λ name d. some (hex_file lines);
}

abbrev bench_kay : HalfKay bench.teensy
bench_kay = record {
  flash = λ d. d.1;
  accepts = λ d low high bs first. refl;
  writes = λ d low high bs first h. refl;
}

abbrev arguments : List Bytes
arguments = codes "-mmcu=atmega8u2" ∷ codes "-r" ∷ codes "lamp.hex" ∷ []

abbrev options : Options
options = record {
  wait_for_device_to_appear = false;
  hard_reboot_device = true;
  reboot_after_programming = true;
  verbose = false;
  code_size = 8 * 1024;
  block_size = 128;
  filename = some (codes "lamp.hex");
}

understood : parse_options arguments defaults ≡ some options
unfolding parse_options parse_option parse_flag set_mcu family sizes same_text starts_with
understood = refl

parse_options-Parsed_example : Parsed defaults arguments options × Sized options
parse_options-Parsed_example =
    parse_options-Parsed arguments defaults options understood (inl (refl, refl))

main-hex_file_example :
    (d' : Bench) × (main bench 2 arguments (0, (λ x. 9)) ≡ some (went (boot bench options d')))
    × ((x : ℕ) → x < 8192 → d'.1 x ≡ file_byte lines x 255)
main-hex_file_example =
    main-hex_file bench bench_kay 2 1 arguments options (codes "lamp.hex") lines lines (0, (λ x. 9))
      (1, (λ x. 9)) (omega arith) understood refl (omega arith) (omega arith)
      ((0, (λ x. 9)), (1, (λ x. 9)), refl, refl, refl) refl refl (omega arith) (omega arith)
