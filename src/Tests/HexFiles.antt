-- ===== src/Tests/HexFiles.antt =====
-- Intel hex files.
use iss_notify_firmware.Common.{
  ℕ, none, some, List, [], ◌∷◌, Bytes, ◌≡◌, ◌↔◌, refl, arith, replicate,
}
use iss_notify_firmware.Stdio.Scan.{skip_space, is_space}
use iss_notify_firmware.Loader.Sscanf.{sscanf_hex, scan_signed}
use iss_notify_firmware.Loader.Hex.{
  HexState, blank, bad_line, read_lines, read_line, read_intel_hex, parse_hex_line, parse_fields,
  fgets, c_string,
}
use iss_notify_firmware.Loader.Hex.Record.{hex_line}
use iss_notify_firmware.Loader.Hex.BadFile.{hex_lines, stored, read_intel_hex-bad_line}
use iss_notify_firmware.Loader.Hex.Refused.{checked_line}
use iss_notify_firmware.Loader.Hex.Ends.{ComesUndefined, read_lines-none}
use iss_notify_firmware.Loader.Hex.Range.{parse_hex_line_overrun}

abbrev two_lines : List (ℕ × Bytes)
two_lines = (0x10, 1 ∷ 2 ∷ []) ∷ (0x7F, 0xFF ∷ []) ∷ []

-- The checksum of the third line would be 0xFB.
read_intel_hex-bad_line_example :
    read_intel_hex (some (hex_lines two_lines (checked_line 0 (4 ∷ []) 0xFA (b'\n' ∷ b':' ∷ []))))
    ≡ some (bad_line, stored ((0, 4 ∷ []) ∷ []) (stored two_lines blank))
read_intel_hex-bad_line_example =
    read_intel_hex-bad_line two_lines 0 0xFA (4 ∷ []) (b':' ∷ []) (omega arith) (omega arith)
      (omega arith) (λ e. absurd (omega (arith, e)))

-- A line of a colon and spaces: `sscanf` meets the end of the text, and assigns nothing.
abbrev spaces : Bytes
spaces = b':' ∷ replicate 10 b' '

spaces_undefined : read_lines 12 spaces blank ≡ none
unfolding read_lines read_line parse_hex_line parse_fields fgets c_string sscanf_hex skip_space
    is_space scan_signed
spaces_undefined = refl

-- The loop comes to it, and has no result.
read_lines-none_example : (read_lines 12 spaces blank ≡ none) ↔ ComesUndefined spaces blank
read_lines-none_example = read_lines-none 12 spaces blank (omega arith)

abbrev high : HexState
high = record blank { extended_addr = 0xFFFF0000 }

parse_hex_line_overrun_example : parse_hex_line (hex_line 0 0xFFFF (7 ∷ []) []) high ≡ none
parse_hex_line_overrun_example =
    parse_hex_line_overrun 0xFFFF 7 [] high (omega arith) (omega arith) (omega arith) refl
      (omega arith)
