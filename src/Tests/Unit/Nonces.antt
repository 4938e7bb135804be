-- ===== src/Tests/Unit/Nonces.antt =====
-- The unit tests of crates/bulkmail/src/nonce_manager.rs. The mocked chain answers with the nonces that
-- the tests set.
use bulkmail.Prelude.{
  ℕ, zero, suc, ◌≡◌, refl, ◌==◌, ◌&&◌, not, Bool, true, false, List, [], ◌∷◌, length, Result, ok,
  err,
}
use bulkmail.Error.{Error}
use bulkmail.NonceManager.{
  NonceState, new, get_next_available_nonce, mark_nonce_available, update_current_nonce, sync_nonce,
}
use bulkmail.NonceManager.InFlight.{contains}

-- A test of the manager of a chain that answers with a nonce; it fails if there is none.
abbrev nonce_manager_at : ℕ → (NonceState → Bool) → Bool
nonce_manager_at nonce test = elim (new (ok nonce)) [ ok nm ↦ test nm | err why ↦ false ]

-- The state after some assignments, and whether the assignments are those expected.
abbrev assigned : ℕ → NonceState → NonceState
assigned zero nm = nm
assigned (suc n) nm = assigned n (get_next_available_nonce nm).0

abbrev assigns : List ℕ → NonceState → Bool
assigns [] nm = true
assigns (n ∷ nonces) nm =
    let (next, nonce) = get_next_available_nonce nm in nonce == n && assigns nonces next

abbrev succeeded : Result Error (Unit {0}) → Bool
succeeded (ok u) = true
succeeded (err why) = false

abbrev synced : NonceState × Result Error (Unit {0}) → ℕ → Bool
synced (nm, r) nonce = succeeded r && nm.current == nonce

abbrev test_new_fetches_initial_nonce : Bool
test_new_fetches_initial_nonce = nonce_manager_at 7 (λ nm. nm.current == 7)

test_new_fetches_initial_nonce_passes : test_new_fetches_initial_nonce ≡ true
unfolding new
test_new_fetches_initial_nonce_passes = refl

abbrev test_sequential_assignment : Bool
test_sequential_assignment = nonce_manager_at 0 (λ nm. assigns (0 ∷ 1 ∷ 2 ∷ []) nm)

test_sequential_assignment_passes : test_sequential_assignment ≡ true
unfolding new get_next_available_nonce
test_sequential_assignment_passes = refl

abbrev test_starts_from_offset : Bool
test_starts_from_offset = nonce_manager_at 5 (λ nm. assigns (5 ∷ 6 ∷ []) nm)

test_starts_from_offset_passes : test_starts_from_offset ≡ true
unfolding new get_next_available_nonce
test_starts_from_offset_passes = refl

abbrev test_mark_available_allows_reuse : Bool
test_mark_available_allows_reuse = nonce_manager_at 0 (λ nm.
    let (assigned, n) = get_next_available_nonce nm in
    (get_next_available_nonce (mark_nonce_available assigned n)).1 == 0)

test_mark_available_allows_reuse_passes : test_mark_available_allows_reuse ≡ true
unfolding new get_next_available_nonce mark_nonce_available
test_mark_available_allows_reuse_passes = refl

abbrev test_update_advances_baseline_and_prunes_in_flight : Bool
test_update_advances_baseline_and_prunes_in_flight = nonce_manager_at 0 (λ nm.
    let state = update_current_nonce (assigned 2 nm) 2 in
    state.current == 2 && length state.in_flight == 0)

test_update_advances_baseline_and_prunes_in_flight_passes :
    test_update_advances_baseline_and_prunes_in_flight ≡ true
unfolding new get_next_available_nonce update_current_nonce
test_update_advances_baseline_and_prunes_in_flight_passes = refl

abbrev test_update_ignores_rollback : Bool
test_update_ignores_rollback = nonce_manager_at 10 (λ nm. (update_current_nonce nm 5).current == 10)

test_update_ignores_rollback_passes : test_update_ignores_rollback ≡ true
unfolding new update_current_nonce
test_update_ignores_rollback_passes = refl

abbrev test_update_retains_higher_in_flight_nonces : Bool
test_update_retains_higher_in_flight_nonces = nonce_manager_at 0 (λ nm.
    let in_flight = (update_current_nonce (assigned 3 nm) 1).in_flight in
    not (contains 0 in_flight) && contains 1 in_flight && contains 2 in_flight)

test_update_retains_higher_in_flight_nonces_passes :
    test_update_retains_higher_in_flight_nonces ≡ true
unfolding new get_next_available_nonce update_current_nonce
test_update_retains_higher_in_flight_nonces_passes = refl

abbrev test_sync_nonce_updates_from_chain : Bool
test_sync_nonce_updates_from_chain =
    nonce_manager_at 0 (λ nm. nm.current == 0 && synced (sync_nonce nm (ok 5)) 5)

test_sync_nonce_updates_from_chain_passes : test_sync_nonce_updates_from_chain ≡ true
unfolding new update_current_nonce sync_nonce
test_sync_nonce_updates_from_chain_passes = refl
