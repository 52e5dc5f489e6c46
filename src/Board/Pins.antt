-- ===== src/Board/Pins.antt =====
-- The pins after the two initialisations.
use iss_notify_firmware.Common.{
  ℕ, ◌+◌, ◌*◌, ◌-◌, ◌/◌, ◌%◌, ◌^◌, ◌<◌, ◌≡◌, ◌≢◌, refl, ap, ◌∙◌, arith, bit, bit_and, bit_or, true,
  ◌==◌, ◌||◌, clear_bit, if◌then◌else◌,
}
use iss_notify_firmware.Common.Bits.{
  all_below, all_below_sound, bit_and-mask, bit-set_bit, bit-clear_bit,
}
use iss_notify_firmware.Board.{Ports, charge_init, rtc_ports}

ones_table :
    all_below 64 (λ x.
      x / 8 == x % 8 || bit_or (2 ^ 16 - 1 - 2 ^ (x / 8)) (2 ^ 16 - 1 - 2 ^ (x % 8)) == 2 ^ 16 - 1)
    ≡ true
unfolding all_below
ones_table = refl

-- The `|` of two masks that each leave out another bit leaves out none.
ones :
    (j k : ℕ)
    → j < 8
    → k < 8
    → j ≢ k
    → bit_or (2 ^ 16 - 1 - 2 ^ j) (2 ^ 16 - 1 - 2 ^ k) ≡ 2 ^ 16 - 1
ones j k hj hk other =
    let row : (j * 8 + k) / 8 ≡ j = omega arith in
    let column : (j * 8 + k) % 8 ≡ k = omega arith in
    let found = all_below_sound 64 _ (j * 8 + k) ones_table (omega arith) in
    let entry = simp (row, column) at found in ground arith

-- For two different bits below 8 and EICRA a byte, `RTC_Init` makes pin D3 an input with its
-- pull-up on, changes no other bit `k` of port D's low byte, and leaves EICRA as it was: the `|`
-- of the two masks clears no bit.
pub rtc_ports_lem :
    (p : Ports) (isc30 isc31 k : ℕ)
    → isc30 < 8
    → isc31 < 8
    → isc30 ≢ isc31
    → p.eicra < 256
    → k < 8
    → let p' = rtc_ports isc30 isc31 p in
      (p'.eicra ≡ p.eicra)
      × (bit p'.ddrd k ≡ (if k == 3 then 0 else bit p.ddrd k))
      × (bit p'.portd k ≡ (if k == 3 then 1 else bit p.portd k))
unfolding rtc_ports
rtc_ports_lem p isc30 isc31 k h l other byte pin = (
  ap (bit_and p.eicra) (ones isc30 isc31 h l other) ∙ bit_and-mask 16 p.eicra ∙ omega arith,
  bit-clear_bit p.ddrd 3 k (omega arith) (omega arith),
  bit-set_bit p.portd 3 k (omega arith) (omega arith),
)

-- `charge_init` makes the two status pins and the power pin inputs with their pull-ups on and B0
-- an output, and changes no other bit `k` of the three ports' low bytes.
charge_init_lem :
    (p : Ports) (k : ℕ)
    → k < 8
    → let p' = charge_init p in
      (bit p'.ddrd k ≡ (if k == 2 then 0 else bit p.ddrd k))
      × (bit p'.portd k ≡ (if k == 2 then 1 else bit p.portd k))
      × (bit p'.ddrb k ≡ (if k == 7 then 0 else if k == 0 then 1 else bit p.ddrb k))
      × (bit p'.portb k ≡ (if k == 7 then 1 else bit p.portb k))
      × (bit p'.ddrc k ≡ (if k == 6 then 0 else bit p.ddrc k))
      × (bit p'.portc k ≡ (if k == 6 then 1 else bit p.portc k))
unfolding charge_init
charge_init_lem p k h =
    let cleared = bit-clear_bit p.ddrb 7 k (omega arith) (omega arith) in
    let output = bit-set_bit (clear_bit p.ddrb 7) 0 k (omega arith) (omega arith) in
    (
      bit-clear_bit p.ddrd 2 k (omega arith) (omega arith),
      bit-set_bit p.portd 2 k (omega arith) (omega arith),
      ground arith,
      bit-set_bit p.portb 7 k (omega arith) (omega arith),
      bit-clear_bit p.ddrc 6 k (omega arith) (omega arith),
      bit-set_bit p.portc 6 k (omega arith) (omega arith),
    )
