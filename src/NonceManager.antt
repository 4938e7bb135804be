-- ===== src/NonceManager.antt =====
-- crates/bulkmail/src/nonce_manager.rs: the confirmed nonce and the nonces in flight, behind one
-- lock. Every method is one critical section, so it is a function on the guarded state. What the
-- chain answers is an argument.
pub mod InFlight
pub mod Next
pub mod Valid
use InFlight.{NonceSet, contains, insert, remove, retain_from}
use bulkmail.Prelude.{
  ℕ, zero, suc, ◌+◌, ltb, if◌then◌else◌, List, [], length, add_u64, Result, ok, err,
}
use bulkmail.Error.{Error, ChainError, chain_error}

pub record NonceState : Type 0 where
  pub current : ℕ
  pub in_flight : NonceSet

-- `NonceManager::new`, given the answer of `get_account_nonce`.
unfoldable pub new : Result ChainError ℕ → Result Error NonceState
new (ok current_nonce) = ok (record { current = current_nonce; in_flight = [] })
new (err e) = err (chain_error e)

-- `while state.in_flight.contains(&nonce) { nonce += 1; }`, with fuel.
pub first_free : ℕ → NonceSet → ℕ → ℕ
unfolding contains
first_free zero s nonce = nonce
first_free (suc fuel) s nonce =
    let rest = first_free fuel s (add_u64 nonce 1) in if contains nonce s then rest else nonce

unfoldable pub get_next_available_nonce : NonceState → NonceState × ℕ
unfolding first_free insert
get_next_available_nonce st =
    let nonce = first_free (length st.in_flight + 1) st.in_flight st.current in
    (record st { in_flight = insert nonce st.in_flight }, nonce)

unfoldable pub mark_nonce_available : NonceState → ℕ → NonceState
unfolding remove
mark_nonce_available st nonce = record st { in_flight = remove nonce st.in_flight }

unfoldable pub update_current_nonce : NonceState → ℕ → NonceState
unfolding retain_from
update_current_nonce st new_nonce =
    if ltb st.current new_nonce
    then record { current = new_nonce; in_flight = retain_from new_nonce st.in_flight }
    else st

-- `sync_nonce`, given the answer of `get_account_nonce`.
unfoldable pub sync_nonce : NonceState → Result ChainError ℕ → NonceState × Result Error (Unit {0})
sync_nonce st (ok on_chain_nonce) = (update_current_nonce st on_chain_nonce, ok tt)
sync_nonce st (err e) = (st, err (chain_error e))
