-- ===== src/Mempool/Queues/Bounded.antt =====
-- crates/mempooloracle/src/lib.rs: account queues with at most a given number of slots each.
use bulkmail.Prelude.{
  ℕ, ◌≤◌, ◌≡◌, [], ◌∷◌, some, length, All, ◌==◌, if_either, Bool-cases, inl, inr,
}
use bulkmail.Mempool.Queues.{AccountQueue, Accounts, lookup, put}

abbrev pub Within : ℕ → ℕ × AccountQueue → Type 0
Within most e = length e.1.slots ≤ most

abbrev pub AllWithin : ℕ → Accounts → Type 0
AllWithin most m = All (Within most) m

pub lookup-Within :
    (most a : ℕ) (m : Accounts) (q : AccountQueue)
    → AllWithin most m
    → lookup a m ≡ some q
    → length q.slots ≤ most
unfolding lookup
lookup-Within most a [] q w h = cc
lookup-Within most a ((b, r) ∷ m) q w h = elim (Bool-cases (a == b)) [
  | inl same ↦ let e : r ≡ q = cc in rw (← e) w.0
  | inr other ↦ lookup-Within most a m q w.1 cc
]

pub put-AllWithin :
    (most a : ℕ) (q : AccountQueue) (m : Accounts)
    → length q.slots ≤ most
    → AllWithin most m
    → AllWithin most (put a q m)
unfolding put
put-AllWithin most a q [] h w = (h, tt)
put-AllWithin most a q ((b, r) ∷ m) h w =
    if_either (AllWithin most) (a == b) (λ _. (h, w.1)) (λ _. (w.0, put-AllWithin most a q m h w.1))
