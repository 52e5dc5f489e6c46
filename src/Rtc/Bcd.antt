-- ===== src/Rtc/Bcd.antt =====
-- Binary coded decimal: `dec2bcd` and `bcd2dec`.
use iss_notify_firmware.Common.{ℕ, ◌+◌, ◌*◌, ◌/◌, ◌%◌, ◌<◌, ◌≡◌, ◌↔◌, arith}
use iss_notify_firmware.Rtc.{dec2bcd, bcd2dec}

-- Exactly the bytes below 160 are had back from their code, and exactly the bytes whose low nibble
-- is a decimal digit are had back from their number.
dec2bcd-bcd2dec_iff :
    (val : ℕ)
    → val < 256
    → ((bcd2dec (dec2bcd val) ≡ val) ↔ (val < 160))
      × ((dec2bcd (bcd2dec val) ≡ val) ↔ (val % 16 < 10))
unfolding dec2bcd bcd2dec
dec2bcd-bcd2dec_iff val h =
    ((λ e. omega arith, λ e. omega arith), (λ e. omega arith, λ e. omega arith))

pub bcd-back : (val : ℕ) → val < 160 → bcd2dec (dec2bcd val) ≡ val
unfolding dec2bcd bcd2dec
bcd-back val h = omega arith

-- The nibbles of a code are the decimal digits.
pub dec2bcd_digits : (val : ℕ) → val < 160 → dec2bcd val ≡ val / 10 * 16 + val % 10
unfolding dec2bcd
dec2bcd_digits val h = omega arith
