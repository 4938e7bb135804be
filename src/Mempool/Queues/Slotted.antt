-- ===== src/Mempool/Queues/Slotted.antt =====
-- crates/mempooloracle/src/lib.rs: a slot's place in its account queue is the nonce of what it holds.
use bulkmail.Prelude.{
  ℕ, zero, suc, ◌+◌, ◌≡◌, subst, List, [], ◌∷◌, ◌++◌, Option, none, some, arith, replicate, set,
  drop, All, ◌==◌, if_either, ==→eq, Bool-cases, inl, inr,
}
use bulkmail.Mempool.Queues.{PendingTx, AccountQueue, Accounts, lookup, put, slot_at}

-- Every transaction in the slots is of the account `a`, and they stand at their nonces, from `c` on.
abbrev pub Slotted : ℕ → ℕ → List (Option PendingTx) → Type 0
Slotted a c [] = Unit {0}
Slotted a c (none ∷ slots) = Slotted a (suc c) slots
Slotted a c (some tx ∷ slots) = ((tx.sender ≡ a) × (tx.nonce ≡ c)) × Slotted a (suc c) slots

abbrev pub IsSlotted : ℕ × AccountQueue → Type 0
IsSlotted e = Slotted e.0 e.1.confirmed_nonce e.1.slots

Slotted-tail :
    (a c : ℕ) (o : Option PendingTx) (slots : List (Option PendingTx))
    → Slotted a c (o ∷ slots)
    → Slotted a (suc c) slots
Slotted-tail a c none slots s = s
Slotted-tail a c (some tx) slots s = s.1

Slotted-retail :
    (a c : ℕ) (o : Option PendingTx) (slots slots' : List (Option PendingTx))
    → Slotted a c (o ∷ slots)
    → Slotted a (suc c) slots'
    → Slotted a c (o ∷ slots')
Slotted-retail a c none slots slots' s t = t
Slotted-retail a c (some tx) slots slots' s t = (s.0, t)

pub Slotted-slot_at :
    (a c i : ℕ) (slots : List (Option PendingTx)) (tx : PendingTx)
    → Slotted a c slots
    → slot_at slots i ≡ some tx
    → (tx.sender ≡ a) × (tx.nonce ≡ c + i)
unfolding slot_at
Slotted-slot_at a c i [] tx s h = cc
Slotted-slot_at a c zero (none ∷ slots) tx s h = cc
Slotted-slot_at a c zero (some t ∷ slots) tx s h =
    let e : t ≡ tx = cc in rw (← e) (s.0.0, omega (arith, s.0.1))
Slotted-slot_at a c (suc i) (o ∷ slots) tx s h =
    let (x, y) = Slotted-slot_at a (suc c) i slots tx (Slotted-tail a c o slots s) h in
    (x, omega (arith, y))

pub set-none-Slotted :
    (a c i : ℕ) (slots : List (Option PendingTx))
    → Slotted a c slots
    → Slotted a c (set slots i none)
set-none-Slotted a c i [] s = s
set-none-Slotted a c zero (o ∷ slots) s = Slotted-tail a c o slots s
set-none-Slotted a c (suc i) (o ∷ slots) s =
    Slotted-retail a c o slots (set slots i none) s
      (set-none-Slotted a (suc c) i slots (Slotted-tail a c o slots s))

pub set-some-Slotted :
    (a c i : ℕ) (slots : List (Option PendingTx)) (tx : PendingTx)
    → tx.sender ≡ a
    → tx.nonce ≡ c + i
    → Slotted a c slots
    → Slotted a c (set slots i (some tx))
set-some-Slotted a c i [] tx e n s = s
set-some-Slotted a c zero (o ∷ slots) tx e n s = ((e, omega (arith, n)), Slotted-tail a c o slots s)
set-some-Slotted a c (suc i) (o ∷ slots) tx e n s =
    Slotted-retail a c o slots (set slots i (some tx)) s
      (set-some-Slotted a (suc c) i slots tx e (omega (arith, n)) (Slotted-tail a c o slots s))

gap-Slotted : (a c n : ℕ) → Slotted a c (replicate n none)
gap-Slotted a c zero = tt
gap-Slotted a c (suc n) = gap-Slotted a (suc c) n

pub append_gap-Slotted :
    (a c n : ℕ) (slots : List (Option PendingTx))
    → Slotted a c slots
    → Slotted a c (slots ++ replicate n none)
append_gap-Slotted a c n [] s = gap-Slotted a c n
append_gap-Slotted a c n (o ∷ slots) s =
    Slotted-retail a c o slots (slots ++ replicate n none) s
      (append_gap-Slotted a (suc c) n slots (Slotted-tail a c o slots s))

pub prepend_gap-Slotted :
    (a c n : ℕ) (slots : List (Option PendingTx))
    → Slotted a (c + n) slots
    → Slotted a c (replicate n none ++ slots)
prepend_gap-Slotted a c zero slots s = subst (λ k. Slotted a k slots) (omega arith) s
prepend_gap-Slotted a c (suc n) slots s =
    prepend_gap-Slotted a (suc c) n slots (subst (λ k. Slotted a k slots) (omega arith) s)

pub drop-Slotted :
    (a c n : ℕ) (slots : List (Option PendingTx))
    → Slotted a c slots
    → Slotted a (c + n) (drop n slots)
drop-Slotted a c zero slots s = subst (λ k. Slotted a k slots) (omega arith) s
drop-Slotted a c (suc n) [] s = tt
drop-Slotted a c (suc n) (o ∷ slots) s =
    subst (λ k. Slotted a k (drop n slots)) (omega arith)
      (drop-Slotted a (suc c) n slots (Slotted-tail a c o slots s))

pub lookup-IsSlotted :
    (a : ℕ) (m : Accounts) (q : AccountQueue)
    → All IsSlotted m
    → lookup a m ≡ some q
    → IsSlotted (a, q)
unfolding lookup
lookup-IsSlotted a [] q w h = cc
lookup-IsSlotted a ((b, r) ∷ m) q w h = elim (Bool-cases (a == b)) [
  | inl same ↦ let e : r ≡ q = cc in rw (← e, ==→eq a b same) w.0
  | inr other ↦ lookup-IsSlotted a m q w.1 cc
]

pub put-IsSlotted :
    (a : ℕ) (q : AccountQueue) (m : Accounts)
    → IsSlotted (a, q)
    → All IsSlotted m
    → All IsSlotted (put a q m)
unfolding put
put-IsSlotted a q [] s w = (s, tt)
put-IsSlotted a q ((b, r) ∷ m) s w =
    if_either (All IsSlotted) (a == b) (λ _. (s, w.1)) (λ _. (w.0, put-IsSlotted a q m s w.1))
