-- ===== src/Mempool/Queues/Placed.antt =====
-- crates/mempooloracle/src/lib.rs: account queues whose slots are at their nonces, one queue an account.
use bulkmail.Prelude.{
  ℕ, ◌≡◌, ◌≢◌, [], ◌∷◌, none, some, All, All-mono, ◌==◌, if_either, ==→eq, ==→ne, Bool-cases, inl,
  inr, refl, sym, ◌∙◌,
}
use bulkmail.Mempool.Queues.{AccountQueue, Accounts, lookup, put}
use bulkmail.Mempool.Queues.Slotted.{IsSlotted, lookup-IsSlotted, put-IsSlotted}

abbrev pub Other : ℕ → ℕ × AccountQueue → Type 0
Other a e = e.0 ≢ a

-- No account has two queues.
abbrev pub Distinct : Accounts → Type 0
Distinct [] = Unit {0}
Distinct ((a, q) ∷ m) = All (Other a) m × Distinct m

abbrev pub Placed : Accounts → Type 0
Placed m = All IsSlotted m × Distinct m

pub lookup-Other : (a : ℕ) (m : Accounts) → All (Other a) m → lookup a m ≡ none
unfolding lookup
lookup-Other a [] h = refl
lookup-Other a ((b, q) ∷ m) h = elim (Bool-cases (a == b)) [
  | inl same ↦ absurd (h.0 (sym (==→eq a b same)))
  | inr other ↦ rw other (lookup-Other a m h.1)
]

put-Other :
    (a b : ℕ) (q : AccountQueue) (m : Accounts)
    → b ≢ a
    → All (Other a) m
    → All (Other a) (put b q m)
unfolding put
put-Other a b q [] d h = (d, tt)
put-Other a b q ((c, r) ∷ m) d h =
    if_either (All (Other a)) (b == c) (λ _. (d, h.1)) (λ _. (h.0, put-Other a b q m d h.1))

put-Distinct : (a : ℕ) (q : AccountQueue) (m : Accounts) → Distinct m → Distinct (put a q m)
unfolding put
put-Distinct a q [] d = (tt, tt)
put-Distinct a q ((b, r) ∷ m) d =
    if_either Distinct (a == b)
      (λ same. (All-mono (Other b) (Other a) m (λ e h k. h (k ∙ ==→eq a b same)) d.0, d.1))
      (λ other. (put-Other b a q m (==→ne a b other) d.0, put-Distinct a q m d.1))

pub lookup-Placed :
    (a : ℕ) (m : Accounts) (q : AccountQueue) → Placed m → lookup a m ≡ some q → IsSlotted (a, q)
lookup-Placed a m q w h = lookup-IsSlotted a m q w.0 h

pub put-Placed :
    (a : ℕ) (q : AccountQueue) (m : Accounts) → IsSlotted (a, q) → Placed m → Placed (put a q m)
put-Placed a q m s w = (put-IsSlotted a q m s w.0, put-Distinct a q m w.1)
