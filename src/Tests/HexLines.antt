-- ===== src/Tests/HexLines.antt =====
-- Hex files with address lines.
use iss_notify_firmware.Common.{some, List, [], ◌∷◌, ◌≡◌, arith}
use iss_notify_firmware.Loader.Hex.{blank, bad_line, read_intel_hex}
use iss_notify_firmware.Loader.Hex.Record.{hex_line}
use iss_notify_firmware.Loader.Hex.Lines.{
  Line, bytes_at, segment, linear, other, lines_text, file_text, put_all, through,
}
use iss_notify_firmware.Loader.Hex.Extended.{read_intel_hex-file_text}
use iss_notify_firmware.Loader.Hex.Above.{read_intel_hex-above}

-- The data line stands at 0x1010; the last line is a start address.
abbrev moved : List Line
moved =
    linear 0 ∷ segment 0x100 ∷ bytes_at 0x10 (1 ∷ 2 ∷ []) ∷ other 5 (0 ∷ 0 ∷ 0x10 ∷ 0x10 ∷ []) ∷ []

read_intel_hex-file_text_example :
    read_intel_hex (some (file_text moved))
    ≡ some (
      2,
      record {
        memory = put_all 0 moved blank.memory;
        end_record_seen = 1;
        byte_count = 2;
        extended_addr = 0x1000;
      },
    )
read_intel_hex-file_text_example =
    read_intel_hex-file_text moved (omega arith) (omega arith) (omega arith)

-- Behind an address line for the second 64 K even the end line is refused.
read_intel_hex-above_example :
    read_intel_hex (some (lines_text (linear 1 ∷ []) (hex_line 1 0 [] (b'\n' ∷ []))))
    ≡ some (bad_line, through (linear 1 ∷ []) blank)
read_intel_hex-above_example =
    read_intel_hex-above (linear 1 ∷ []) 1 0 [] [] (omega arith) (omega arith) (omega arith)
      (omega arith) (omega arith) (omega arith)
