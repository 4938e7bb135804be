-- ===== src/NonceManager/Next.antt =====
-- crates/bulkmail/src/nonce_manager.rs: which nonce is assigned, and that the search for it ends.
use bulkmail.Prelude.{
  ℕ, zero, suc, ◌+◌, ◌≤◌, ◌<◌, ◌≡◌, refl, [], ◌∷◌, true, false, leb, ◌==◌, if◌then◌else◌, length,
  u64_mod, arith, Bool-cases, inl, inr, ◌⊎◌, ==→eq, ap,
}
use bulkmail.NonceManager.InFlight.{NonceSet, contains, contains-insert, remove-insert}
use bulkmail.NonceManager.{NonceState, first_free, get_next_available_nonce, mark_nonce_available}

-- How many entries are at least `n`: what bounds the search from `n`.
abbrev count_from : ℕ → NonceSet → ℕ
count_from n [] = 0
count_from n (x ∷ s) = (if leb n x then 1 else 0) + count_from n s

count_from-le-length : (n : ℕ) (s : NonceSet) → count_from n s ≤ length s
count_from-le-length n [] = omega arith
count_from-le-length n (x ∷ s) = ground (arith, count_from-le-length n s)

count_from-suc_le : (n : ℕ) (s : NonceSet) → count_from (suc n) s ≤ count_from n s
count_from-suc_le n [] = omega arith
count_from-suc_le n (x ∷ s) = ground (arith, count_from-suc_le n s)

count_from-suc_lt :
    (n : ℕ) (s : NonceSet) → contains n s ≡ true → count_from (suc n) s < count_from n s
unfolding contains
count_from-suc_lt n [] h = cc
count_from-suc_lt n (x ∷ s) h = ground (arith, count_from-suc_lt n s, count_from-suc_le n s)

-- What the search returns, once it ends by its own test.
record IsFirstFree (s : NonceSet) (n r : ℕ) : Type 0 where
  free : contains r s ≡ false
  above : n ≤ r
  near : r ≤ n + count_from n s
  least : (k : ℕ) → n ≤ k → k < r → contains k s ≡ true

first_free_taken :
    (fuel : ℕ) (s : NonceSet) (n : ℕ)
    → contains n s ≡ true
    → n + 1 < u64_mod
    → first_free (suc fuel) s n ≡ first_free fuel s (suc n)
unfolding first_free
first_free_taken fuel s n h k = rw h (ap (first_free fuel s) (omega arith))

-- One more taken nonce below the result of the search from its successor.
IsFirstFree-step :
    (s : NonceSet) (n r : ℕ) → contains n s ≡ true → IsFirstFree s (suc n) r → IsFirstFree s n r
IsFirstFree-step s n r h i = record {
  free = i.free;
  above = omega (arith, i.above);
  near = omega (arith, i.near, count_from-suc_lt n s h);
  least = λ k a b. elim (Bool-cases (k == n)) [
    | inl e ↦ rw (==→eq k n e) h
    | inr e ↦ i.least k (ground arith) b
  ];
}

IsFirstFree-free :
    (fuel : ℕ) (s : NonceSet) (n : ℕ)
    → contains n s ≡ false
    → IsFirstFree s n (first_free (suc fuel) s n)
unfolding first_free
IsFirstFree-free fuel s n h = rw h (record {
  free = h;
  above = omega arith;
  near = omega arith;
  least = λ k a b. absurd (omega arith);
})

-- With more fuel than there are entries to pass, the search ends by its test, at the least nonce
-- that is free.
first_free_lem :
    (fuel : ℕ) (s : NonceSet) (n : ℕ)
    → count_from n s < fuel
    → n + count_from n s < u64_mod
    → IsFirstFree s n (first_free fuel s n)
first_free_lem zero s n h k = absurd (omega arith)
first_free_lem (suc fuel) s n h k = elim (Bool-cases (contains n s)) [
  | inl taken ↦ rw (first_free_taken fuel s n taken (omega (arith, count_from-suc_lt n s taken))) (
      IsFirstFree-step s n (first_free fuel s (suc n)) taken (
        first_free_lem fuel s (suc n) (omega (arith, count_from-suc_lt n s taken))
          (omega (arith, count_from-suc_lt n s taken))))
  | inr free ↦ IsFirstFree-free fuel s n free
]

-- There is room for every nonce that the search can reach.
abbrev pub HasRoom : NonceState → Type 0
HasRoom st = st.current + length st.in_flight < u64_mod

found :
    (st : NonceState)
    → HasRoom st
    → IsFirstFree st.in_flight st.current (get_next_available_nonce st).1
unfolding get_next_available_nonce
found st h =
    first_free_lem (length st.in_flight + 1) st.in_flight st.current
      (omega (arith, count_from-le-length st.current st.in_flight))
      (omega (arith, count_from-le-length st.current st.in_flight))

pub get_next_available_nonce-least :
    (st : NonceState)
    → HasRoom st
    → let n = (get_next_available_nonce st).1 in
      (contains n st.in_flight ≡ false) × (st.current ≤ n) × (n ≤ st.current + length st.in_flight)
get_next_available_nonce-least st h =
    let f = found st h in
    (f.free, f.above, omega (arith, f.near, count_from-le-length st.current st.in_flight))

-- While there is room above the confirmed nonce for all that is in flight, the nonce that is
-- assigned was not in flight, is not below the confirmed nonce, and skips at most as many as are in
-- flight; and it is the least such: any nonce `k` is below the confirmed one, or not below the one
-- assigned, or was in flight.
pub get_next_available_nonce-first :
    (st : NonceState) (k : ℕ)
    → HasRoom st
    → let n = (get_next_available_nonce st).1 in
      (contains n st.in_flight ≡ false)
      × (st.current ≤ n)
      × (n ≤ st.current + length st.in_flight)
      × ((k < st.current) ⊎ (n ≤ k) ⊎ (contains k st.in_flight ≡ true))
get_next_available_nonce-first st k h =
    let (free, above, near) = get_next_available_nonce-least st h in
    (free, above, near, ground (arith, (found st h).least k))

-- The assignment reserves that nonce, leaves every other one and the confirmed nonce as they were.
pub get_next_available_nonce-reserves :
    (st : NonceState) (k : ℕ)
    → let (st', n) = get_next_available_nonce st in
      (contains k st'.in_flight ≡ (if k == n then true else contains k st.in_flight))
      × (st'.current ≡ st.current)
unfolding get_next_available_nonce
get_next_available_nonce-reserves st k =
    (contains-insert k (get_next_available_nonce st).1 st.in_flight, refl)

-- While there is room, giving a nonce back right after it was assigned restores the state, so that the same nonce is
-- assigned again.
pub mark_nonce_available-get_next_available_nonce :
    (st : NonceState)
    → HasRoom st
    → let (st', n) = get_next_available_nonce st in mark_nonce_available st' n ≡ st
unfolding mark_nonce_available get_next_available_nonce
mark_nonce_available-get_next_available_nonce st h =
    ap (λ s. record st { in_flight = s }) (remove-insert _ st.in_flight (found st h).free)
