-- ===== src/NonceManager/Valid.antt =====
-- crates/bulkmail/src/nonce_manager.rs: the invariant of the tracked nonces, and what confirmation
-- and synchronisation do.
use bulkmail.Prelude.{ℕ, ◌≡◌, refl, leb, ◌==◌, if◌then◌else◌, false, max, arith, Result, ok, err}
use bulkmail.Error.{ChainError}
use bulkmail.NonceManager.InFlight.{
  contains, Ascending, insert-Ascending, remove-Ascending, retain_from-Ascending,
  contains-retain_from, contains-remove, contains_below, retain_from-retain_from,
}
use bulkmail.NonceManager.Next.{HasRoom, get_next_available_nonce-least}
use bulkmail.NonceManager.{
  NonceState, get_next_available_nonce, mark_nonce_available, update_current_nonce, sync_nonce,
}

-- The nonces in flight are distinct, and none is below the confirmed one.
abbrev pub IsValid : NonceState → Type 0
IsValid st = Ascending st.current st.in_flight

-- The calls of the manager, with what the chain answers.
pub data Call : Type 0 where
  next : Call
  release : ℕ → Call
  confirm : ℕ → Call
  sync : Result ChainError ℕ → Call

pub step : NonceState → Call → NonceState
step st next = (get_next_available_nonce st).0
step st (release n) = mark_nonce_available st n
step st (confirm n) = update_current_nonce st n
step st (sync answer) = (sync_nonce st answer).0

pub get_next_available_nonce-IsValid :
    (st : NonceState) → HasRoom st → IsValid st → IsValid (get_next_available_nonce st).0
unfolding get_next_available_nonce
get_next_available_nonce-IsValid st h v =
    insert-Ascending _ st.current st.in_flight (get_next_available_nonce-least st h).1 v

pub mark_nonce_available-IsValid :
    (st : NonceState) (n : ℕ) → IsValid st → IsValid (mark_nonce_available st n)
unfolding mark_nonce_available
mark_nonce_available-IsValid st n v = remove-Ascending n st.current st.in_flight v

pub update_current_nonce-IsValid :
    (st : NonceState) (n : ℕ) → IsValid st → IsValid (update_current_nonce st n)
unfolding update_current_nonce
update_current_nonce-IsValid st n v =
    ground (arith, retain_from-Ascending n st.current st.in_flight v)

-- While there is room above the confirmed nonce, every call keeps the nonces in flight distinct and
-- at or above the confirmed nonce.
pub step-IsValid : (st : NonceState) (c : Call) → HasRoom st → IsValid st → IsValid (step st c)
unfolding step sync_nonce
step-IsValid st next h v = get_next_available_nonce-IsValid st h v
step-IsValid st (release n) h v = mark_nonce_available-IsValid st n v
step-IsValid st (confirm n) h v = update_current_nonce-IsValid st n v
step-IsValid st (sync (ok n)) h v = update_current_nonce-IsValid st n v
step-IsValid st (sync (err e)) h v = v

-- In a valid state the confirmed nonce becomes the greater of the two, so it never goes back; exactly the nonces in
-- flight that are at or above it stay.
pub update_current_nonce_lem :
    (st : NonceState) (n k : ℕ)
    → IsValid st
    → let st' = update_current_nonce st n in
      (st'.current ≡ max st.current n)
      × (contains k st'.in_flight ≡ (if leb st'.current k then contains k st.in_flight else false))
unfolding update_current_nonce
update_current_nonce_lem st n k v =
    ground
      (arith, contains-retain_from k n st.in_flight, contains_below k st.current st.in_flight v)

-- Confirmations may arrive in any order: two of them lead to the same state either way.
pub update_current_nonce_comm :
    (st : NonceState) (a b : ℕ)
    → update_current_nonce (update_current_nonce st a) b
      ≡ update_current_nonce (update_current_nonce st b) a
unfolding update_current_nonce
update_current_nonce_comm st a b =
    ground
      (arith, retain_from-retain_from a b st.in_flight, retain_from-retain_from b a st.in_flight)

-- A released nonce is no longer in flight, every other one is as it was, and so is the confirmed
-- nonce.
pub mark_nonce_available_lem :
    (st : NonceState) (n k : ℕ)
    → IsValid st
    → let st' = mark_nonce_available st n in
      (contains k st'.in_flight ≡ (if k == n then false else contains k st.in_flight))
      × (st'.current ≡ st.current)
unfolding mark_nonce_available
mark_nonce_available_lem st n k v = (contains-remove k n st.current st.in_flight v, refl)
