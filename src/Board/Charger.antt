-- ===== src/Board/Charger.antt =====
-- What the charger's two pins say.
use iss_notify_firmware.Common.{◌≡◌, bit, true, false, Bool, Bool-cases, inl, inr, ◌==◌}
use iss_notify_firmware.Common.Bits.{bit-test}
use iss_notify_firmware.Board.{
  Ports, ChargeStatus, idle, bulk_charge, trickle_charge, get_charge_status,
}

-- The status that a chart of the two pins gives.
abbrev chart : Bool → Bool → ChargeStatus
chart true true = idle
chart true false = bulk_charge
chart false true = trickle_charge
chart false false = idle

get_charge_status-chart :
    (p : Ports) → get_charge_status p ≡ chart (bit p.pind 2 == 0) (bit p.pinb 7 == 0)
unfolding get_charge_status
get_charge_status-chart p = elim (Bool-cases (bit p.pind 2 == 0)) [
  | inl a ↦ elim (Bool-cases (bit p.pinb 7 == 0)) [
    | inl b ↦ rw (bit-test, bit-test, a, b)
    | inr b ↦ rw (bit-test, bit-test, a, b)
  ]
  | inr a ↦ elim (Bool-cases (bit p.pinb 7 == 0)) [
    | inl b ↦ rw (bit-test, bit-test, a, b)
    | inr b ↦ rw (bit-test, bit-test, a, b)
  ]
]
