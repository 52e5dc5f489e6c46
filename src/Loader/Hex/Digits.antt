-- ===== src/Loader/Hex/Digits.antt =====
-- Hexadecimal numbers as they are printed are scanned back.
use iss_notify_firmware.Common.{
  ℕ, suc, ◌+◌, ◌-◌, ◌*◌, ◌/◌, ◌%◌, ◌^◌, ◌<◌, Bool, false, ◌&&◌, ◌||◌, some, ◌∷◌, Bytes, ◌≡◌, ap,
  ◌∙◌, arith, ◌==◌, ltb, leb, if◌then◌else◌,
}
use iss_notify_firmware.Stdio.Scan.{is_space, skip_space}
use iss_notify_firmware.Loader.Sscanf.{
  assigned, hex_value, read_hex, scan_hex_digits, scan_prefixed, scan_signed, sscanf_hex,
}

unfoldable pub hex_char : ℕ → ℕ
hex_char d = if ltb d 10 then b'0' + d else b'A' + d - 10

-- "%02X" in front of a text.
unfoldable pub hex_byte : ℕ → Bytes → Bytes
hex_byte b s = hex_char (b / 16) ∷ hex_char (b % 16) ∷ s

hex_value-hex_char : (d : ℕ) → d < 16 → hex_value (hex_char d) ≡ some d
unfolding hex_value hex_char
hex_value-hex_char d h = ground arith

is_space-hex_char : (d : ℕ) → d < 16 → is_space (hex_char d) ≡ false
unfolding hex_char
is_space-hex_char d h = ground arith

unsigned_char : (d : ℕ) → d < 16 → ((hex_char d == b'-') ≡ false) × ((hex_char d == b'+') ≡ false)
unfolding hex_char
unsigned_char d h = ground arith

no_prefix :
    (c e : ℕ) (b : Bool)
    → e < 16
    → (c == b'0' && (hex_char e == b'x' || hex_char e == b'X') && b) ≡ false
unfolding hex_char
no_prefix c e b h = ground arith

read_hex-hex_char :
    (w v e : ℕ) (s : Bytes)
    → e < 16
    → read_hex (suc w) v (hex_char e ∷ s) ≡ read_hex w (v * 16 + e) s
unfolding read_hex
read_hex-hex_char w v e s h = rw (hex_value-hex_char e h, read_hex)

scan_hex_digits-hex_char :
    (w d : ℕ) (s : Bytes)
    → d < 16
    → scan_hex_digits (suc w) (hex_char d ∷ s) ≡ assigned (read_hex w d s)
unfolding scan_hex_digits
scan_hex_digits-hex_char w d s h = rw (hex_value-hex_char d h, scan_hex_digits)

-- A scan that begins with two digits.
sscanf_hex-hex_char :
    (w d e : ℕ) (s : Bytes)
    → d < 16
    → e < 16
    → sscanf_hex (suc (suc w)) (hex_char d ∷ hex_char e ∷ s) ≡ assigned (read_hex w (d * 16 + e) s)
unfolding sscanf_hex skip_space scan_signed scan_prefixed
sscanf_hex-hex_char w d e s h k =
    let signs = unsigned_char d h in
    rw (
      is_space-hex_char d h,
      signs.0,
      signs.1,
      no_prefix (hex_char d) e (leb 2 (suc (suc w))) k,
      scan_hex_digits-hex_char (suc w) d (hex_char e ∷ s) h,
      read_hex-hex_char w d e s k,
    )

pub sscanf_hex-hex_byte : (b : ℕ) (s : Bytes) → b < 256 → sscanf_hex 2 (hex_byte b s) ≡ assigned b
unfolding hex_byte read_hex
sscanf_hex-hex_byte b s h =
    sscanf_hex-hex_char 0 (b / 16) (b % 16) s (omega arith) (omega arith)
    ∙ ap assigned (omega arith)

pub sscanf_hex-hex_word :
    (a : ℕ) (s : Bytes)
    → a < 2 ^ 16
    → sscanf_hex 4 (hex_byte (a / 256) (hex_byte (a % 256) s)) ≡ assigned a
unfolding hex_byte
sscanf_hex-hex_word a s h =
    sscanf_hex-hex_char 2 (a / 256 / 16) (a / 256 % 16) _ (omega arith) (omega arith)
    ∙ ap assigned (
        read_hex-hex_char 1 _ (a % 256 / 16) _ (omega arith)
        ∙ read_hex-hex_char 0 _ (a % 256 % 16) s (omega arith)
        ∙ (unfold read_hex in omega arith))
