-- ===== src/Mempool/Queues/Filled.antt =====
-- crates/mempooloracle/src/lib.rs: what holds of every transaction in the slots of the account queues.
use bulkmail.Prelude.{
  ℕ, zero, suc, ◌≡◌, List, [], ◌∷◌, ◌++◌, Option, none, some, replicate, set, drop, All, ◌==◌,
  if_either, Bool-cases, inl, inr,
}
use bulkmail.Mempool.Queues.{PendingTx, AccountQueue, Accounts, lookup, put, slot_at}

module _ (P : PendingTx → Type 0) where
  abbrev pub Filled : List (Option PendingTx) → Type 0
  Filled [] = Unit {0}
  Filled (none ∷ slots) = Filled slots
  Filled (some tx ∷ slots) = P tx × Filled slots

  abbrev pub IsFilled : ℕ × AccountQueue → Type 0
  IsFilled e = Filled e.1.slots

  Filled-tail :
      (o : Option PendingTx) (slots : List (Option PendingTx)) → Filled (o ∷ slots) → Filled slots
  Filled-tail none slots f = f
  Filled-tail (some tx) slots f = f.1

  Filled-retail :
      (o : Option PendingTx) (slots slots' : List (Option PendingTx))
      → Filled (o ∷ slots)
      → Filled slots'
      → Filled (o ∷ slots')
  Filled-retail none slots slots' f g = g
  Filled-retail (some tx) slots slots' f g = (f.0, g)

  pub Filled-slot_at :
      (i : ℕ) (slots : List (Option PendingTx)) (tx : PendingTx)
      → Filled slots
      → slot_at slots i ≡ some tx
      → P tx
  unfolding slot_at
  Filled-slot_at i [] tx f h = absurd (cc)
  Filled-slot_at zero (none ∷ slots) tx f h = absurd (cc)
  Filled-slot_at zero (some t ∷ slots) tx f h = let e : t ≡ tx = cc in rw (← e) f.0
  Filled-slot_at (suc i) (o ∷ slots) tx f h = Filled-slot_at i slots tx (Filled-tail o slots f) h

  pub set-some-Filled :
      (i : ℕ) (slots : List (Option PendingTx)) (tx : PendingTx)
      → P tx
      → Filled slots
      → Filled (set slots i (some tx))
  set-some-Filled i [] tx p f = f
  set-some-Filled zero (o ∷ slots) tx p f = (p, Filled-tail o slots f)
  set-some-Filled (suc i) (o ∷ slots) tx p f =
      Filled-retail o slots (set slots i (some tx)) f
        (set-some-Filled i slots tx p (Filled-tail o slots f))

  gap-Filled : (n : ℕ) → Filled (replicate n none)
  gap-Filled zero = tt
  gap-Filled (suc n) = gap-Filled n

  pub append_gap-Filled :
      (n : ℕ) (slots : List (Option PendingTx)) → Filled slots → Filled (slots ++ replicate n none)
  append_gap-Filled n [] f = gap-Filled n
  append_gap-Filled n (o ∷ slots) f =
      Filled-retail o slots (slots ++ replicate n none) f
        (append_gap-Filled n slots (Filled-tail o slots f))

  pub prepend_gap-Filled :
      (n : ℕ) (slots : List (Option PendingTx)) → Filled slots → Filled (replicate n none ++ slots)
  prepend_gap-Filled zero slots f = f
  prepend_gap-Filled (suc n) slots f = prepend_gap-Filled n slots f

  pub drop-Filled : (n : ℕ) (slots : List (Option PendingTx)) → Filled slots → Filled (drop n slots)
  drop-Filled zero slots f = f
  drop-Filled (suc n) [] f = tt
  drop-Filled (suc n) (o ∷ slots) f = drop-Filled n slots (Filled-tail o slots f)

  pub lookup-IsFilled :
      (a : ℕ) (m : Accounts) (q : AccountQueue)
      → All IsFilled m
      → lookup a m ≡ some q
      → Filled q.slots
  unfolding lookup
  lookup-IsFilled a [] q w h = absurd (cc)
  lookup-IsFilled a ((b, r) ∷ m) q w h = elim (Bool-cases (a == b)) [
    | inl same ↦ let e : r ≡ q = cc in rw (← e) w.0
    | inr other ↦ lookup-IsFilled a m q w.1 cc
  ]

  pub put-IsFilled :
      (a : ℕ) (q : AccountQueue) (m : Accounts)
      → Filled q.slots
      → All IsFilled m
      → All IsFilled (put a q m)
  unfolding put
  put-IsFilled a q [] f w = (f, tt)
  put-IsFilled a q ((b, r) ∷ m) f w =
      if_either (All IsFilled) (a == b) (λ _. (f, w.1)) (λ _. (w.0, put-IsFilled a q m f w.1))

pub Filled-mono :
    (P Q : PendingTx → Type 0) (slots : List (Option PendingTx))
    → ((tx : PendingTx) → P tx → Q tx)
    → Filled P slots
    → Filled Q slots
Filled-mono P Q [] g f = tt
Filled-mono P Q (none ∷ slots) g f = Filled-mono P Q slots g f
Filled-mono P Q (some tx ∷ slots) g f = (g tx f.0, Filled-mono P Q slots g f.1)
