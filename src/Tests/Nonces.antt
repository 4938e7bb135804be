-- ===== src/Tests/Nonces.antt =====
-- crates/bulkmail/src/nonce_manager.rs with two nonces in flight.
use bulkmail.Prelude.{◌+◌, ◌≤◌, ◌<◌, ◌≡◌, ◌⊎◌, true, false, length, arith}
use bulkmail.NonceManager.{get_next_available_nonce, mark_nonce_available}
use bulkmail.NonceManager.InFlight.{contains}
use bulkmail.NonceManager.Next.{
  HasRoom, get_next_available_nonce-first, mark_nonce_available-get_next_available_nonce,
}
use bulkmail.NonceManager.Valid.{IsValid, step, step-IsValid, next}
use bulkmail.Tests.{two_in_flight}

two-IsValid : IsValid two_in_flight
two-IsValid = (omega arith, (omega arith, tt))

two-HasRoom : HasRoom two_in_flight
two-HasRoom = omega arith

get_next_available_nonce-first_example :
    let n = (get_next_available_nonce two_in_flight).1 in
    (contains n two_in_flight.in_flight ≡ false)
    × (5 ≤ n)
    × (n ≤ 5 + length two_in_flight.in_flight)
    × ((6 < 5) ⊎ (n ≤ 6) ⊎ (contains 6 two_in_flight.in_flight ≡ true))
get_next_available_nonce-first_example = get_next_available_nonce-first two_in_flight 6 two-HasRoom

mark_nonce_available-get_next_available_nonce_example :
    let (st', n) = get_next_available_nonce two_in_flight in
    mark_nonce_available st' n ≡ two_in_flight
mark_nonce_available-get_next_available_nonce_example =
    mark_nonce_available-get_next_available_nonce two_in_flight two-HasRoom

step-IsValid_example : IsValid (step two_in_flight next)
step-IsValid_example = step-IsValid two_in_flight next two-HasRoom two-IsValid
