-- ===== src/Mempool/Queues.antt =====
-- The per-account queues of crates/mempooloracle/src/lib.rs: a `HashMap` by address. Its iteration
-- order is arbitrary; here it is that of the list.
pub mod Bounded
pub mod Filled
pub mod Placed
pub mod Slotted
use bulkmail.Prelude.{
  ℕ, ◌≡◌, refl, List, [], ◌∷◌, ◌==◌, if◌then◌else◌, Option, none, some, ==_self, arith, get_elem?,
}

pub record PendingTx : Type 0 where
  pub id : ℕ
  pub sender : ℕ
  pub nonce : ℕ
  pub max_fee_per_gas : ℕ
  pub max_priority_fee_per_gas : ℕ
  pub gas_limit : ℕ

pub record AccountQueue : Type 0 where
  pub confirmed_nonce : ℕ
  pub slots : List (Option PendingTx)

abbrev pub Accounts : Type 0
Accounts = List (ℕ × AccountQueue)

unfoldable pub lookup : ℕ → Accounts → Option AccountQueue
lookup a [] = none
lookup a ((b, q) ∷ m) = if a == b then some q else lookup a m

-- The entry of an address, written or added.
unfoldable pub put : ℕ → AccountQueue → Accounts → Accounts
put a q [] = (a, q) ∷ []
put a q ((b, r) ∷ m) = if a == b then (a, q) ∷ m else (b, r) ∷ put a q m

-- `slots.get(i)`, where both an index out of range and an empty slot give none.
unfoldable pub slot_at : List (Option PendingTx) → ℕ → Option PendingTx
slot_at slots i = elim (get_elem? slots i) [ none ↦ none | some o ↦ o ]

pub lookup-put :
    (a b : ℕ) (q : AccountQueue) (m : Accounts)
    → lookup b (put a q m) ≡ (if b == a then some q else lookup b m)
unfolding lookup put
lookup-put a b q [] = refl
lookup-put a b q ((c, r) ∷ m) = ground (arith, lookup-put a b q m)

pub lookup-put_same : (a : ℕ) (q : AccountQueue) (m : Accounts) → lookup a (put a q m) ≡ some q
lookup-put_same a q m = rw (lookup-put a a q m, ==_self a) refl
