-- ===== src/Loader/Hex/Lines.antt =====
-- Hex files with address lines: the base that the following data lines are counted from.
use iss_notify_firmware.Common.{
  ℕ, ◌+◌, ◌*◌, ◌/◌, ◌%◌, ◌^◌, ◌<◌, ◌≤◌, List, [], ◌∷◌, Bytes, length, All, u32,
}
use iss_notify_firmware.Loader.{Image}
use iss_notify_firmware.Loader.Hex.{HexState}
use iss_notify_firmware.Loader.Hex.Record.{put_bytes, hex_line, IsByte}

-- The lines of a file: data, the two kinds of address lines, and one of a code without a meaning
-- here, such as a start address.
pub data Line : Type 0 where
  bytes_at : ℕ → Bytes → Line
  segment : ℕ → Line
  linear : ℕ → Line
  other : ℕ → Bytes → Line

abbrev pub word_bytes : ℕ → Bytes
word_bytes w = w / 256 ∷ w % 256 ∷ []

abbrev pub line_text : Line → Bytes → Bytes
line_text (bytes_at addr bs) s = hex_line 0 addr bs s
line_text (segment w) s = hex_line 2 0 (word_bytes w) s
line_text (linear w) s = hex_line 4 0 (word_bytes w) s
line_text (other code bs) s = hex_line code 0 bs s

-- Lines in front of a text, and a whole file with its end line.
abbrev pub lines_text : List Line → Bytes → Bytes
lines_text [] s = s
lines_text (l ∷ lines) s = line_text l (b'\n' ∷ lines_text lines s)

abbrev pub file_text : List Line → Bytes
file_text lines = lines_text lines (hex_line 1 0 [] (b'\n' ∷ []))

-- The base behind a line.
abbrev base_after : ℕ → Line → ℕ
base_after base (bytes_at addr bs) = base
base_after base (segment w) = w * 16
base_after base (linear w) = w * 2 ^ 16
base_after base (other code bs) = base

abbrev pub final_base : ℕ → List Line → ℕ
final_base base [] = base
final_base base (l ∷ lines) = final_base (base_after base l) lines

abbrev put_line : ℕ → Line → Image → Image
put_line base (bytes_at addr bs) im = put_bytes (addr + base) bs im
put_line base (segment w) im = im
put_line base (linear w) im = im
put_line base (other code bs) im = im

abbrev pub put_all : ℕ → List Line → Image → Image
put_all base [] im = im
put_all base (l ∷ lines) im = put_all (base_after base l) lines (put_line base l im)

abbrev pub size : Line → ℕ
size (bytes_at addr bs) = length bs
size (segment w) = 0
size (linear w) = 0
size (other code bs) = 0

abbrev pub total : List Line → ℕ
total [] = 0
total (l ∷ lines) = size l + total lines

-- The line ends below the last of the 64 K, counted from the base; its fields fit their digits.
abbrev pub FitsAt : ℕ → Line → Type 0
FitsAt base (bytes_at addr bs) =
    (length bs ≤ 255) × (addr + base + length bs < 2 ^ 16) × All IsByte bs
FitsAt base (segment w) = (w < 2 ^ 16) × (base + 2 < 2 ^ 16)
FitsAt base (linear w) = (w < 2 ^ 16) × (base + 2 < 2 ^ 16)
FitsAt base (other code bs) =
    (4 < code) × (code < 256) × (length bs ≤ 255) × (base + length bs < 2 ^ 16)

abbrev pub AllFit : ℕ → List Line → Type 0
AllFit base [] = Unit
AllFit base (l ∷ lines) = FitsAt base l × AllFit (base_after base l) lines

-- What a line makes of the state.
abbrev pub after : Line → HexState → HexState
after l st = record st {
  memory = put_line st.extended_addr l st.memory;
  byte_count = u32 (st.byte_count + size l);
  extended_addr = base_after st.extended_addr l;
}

abbrev pub through : List Line → HexState → HexState
through lines st = record st {
  memory = put_all st.extended_addr lines st.memory;
  byte_count = u32 (st.byte_count + total lines);
  extended_addr = final_base st.extended_addr lines;
}
