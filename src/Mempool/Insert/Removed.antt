-- ===== src/Mempool/Insert/Removed.antt =====
-- crates/mempooloracle/src/lib.rs: a key that leaves `base_fee_eligibility` with the transaction in its
-- slot.
use bulkmail.Prelude.{
  ℕ, zero, suc, ◌+◌, ◌≡◌, ◌≢◌, ◌⊎◌, ◌<◌, refl, sym, List, [], ◌∷◌, Option, none, some, set, All,
  ◌==◌, arith, true, false, Bool-cases, inl, inr, u64_mod, ==→eq, ==→ne,
}
use bulkmail.Mempool.Index.{Key, Keys, same_key, contains, remove}
use bulkmail.Mempool.Queues.{PendingTx, AccountQueue, Accounts, put}
use bulkmail.Mempool.Queues.Slotted.{Slotted, IsSlotted}
use bulkmail.Mempool.Queues.Placed.{Placed, Other}
use bulkmail.Mempool.Queues.Filled.{Filled, IsFilled}
use bulkmail.Mempool.Insert.{eligibility_key}

pub contains-remove :
    (j k : Key) (s : Keys) → same_key j k ≡ false → contains j (remove k s) ≡ contains j s
unfolding contains remove
contains-remove j k [] h = refl
contains-remove j k (x ∷ s) h = ground (arith, contains-remove j k s h)

-- In the index, and of a nonce of 64 bits.
abbrev pub Tracked : Keys → PendingTx → Type 0
Tracked keys tx = (contains (eligibility_key tx) keys ≡ true) × (tx.nonce < u64_mod)

module _ (keys : Keys) (k : Key) where
  kept :
      (tx : PendingTx)
      → same_key (eligibility_key tx) k ≡ false
      → Tracked keys tx
      → Tracked (remove k keys) tx
  kept tx other h = (rw (contains-remove (eligibility_key tx) k keys other) h.0, h.1)

  -- No slot is of the key's nonce.
  above :
      (a c : ℕ) (slots : List (Option PendingTx))
      → k.nonce < c
      → Slotted a c slots
      → Filled (Tracked keys) slots
      → Filled (Tracked (remove k keys)) slots
  above a c [] low s f = tt
  above a c (none ∷ slots) low s f = above a (suc c) slots (omega (arith, low)) s f
  above a c (some tx ∷ slots) low s f =
      (kept tx (ground (arith, s.0.1, low)) f.0, above a (suc c) slots (omega (arith, low)) s.1 f.1)

  -- The slots of another account.
  away :
      (a c : ℕ) (slots : List (Option PendingTx))
      → a ≢ k.addr
      → Slotted a c slots
      → Filled (Tracked keys) slots
      → Filled (Tracked (remove k keys)) slots
  away a c [] other s f = tt
  away a c (none ∷ slots) other s f = away a (suc c) slots other s f
  away a c (some tx ∷ slots) other s f =
      (kept tx (ground (arith, s.0.0, other)) f.0, away a (suc c) slots other s.1 f.1)

  -- The slot of the key's nonce is cleared, or there is none.
  pub cleared :
      (a c i : ℕ) (slots : List (Option PendingTx))
      → (k.nonce ≡ c + i) ⊎ (k.nonce < c)
      → Slotted a c slots
      → Filled (Tracked keys) slots
      → Filled (Tracked (remove k keys)) (set slots i none)
  cleared a c i [] h s f = tt
  cleared a c zero (none ∷ slots) h s f =
      above a (suc c) slots (elim h [ inl e ↦ omega (arith, e) | inr e ↦ omega (arith, e) ]) s f
  cleared a c zero (some tx ∷ slots) h s f =
      above a (suc c) slots (elim h [ inl e ↦ omega (arith, e) | inr e ↦ omega (arith, e) ]) s.1 f.1
  cleared a c (suc i) (none ∷ slots) h s f =
      cleared a (suc c) i slots
        (elim h [ inl e ↦ inl (omega (arith, e)) | inr e ↦ inr (omega (arith, e)) ]) s f
  cleared a c (suc i) (some tx ∷ slots) h s f = (
    kept tx (elim h [ inl e ↦ ground (arith, s.0.1, e) | inr e ↦ ground (arith, s.0.1, e) ]) f.0,
    cleared a (suc c) i slots
        (elim h [ inl e ↦ inl (omega (arith, e)) | inr e ↦ inr (omega (arith, e)) ]) s.1 f.1,
  )

  others :
      (m : Accounts)
      → All (Other k.addr) m
      → All IsSlotted m
      → All (IsFilled (Tracked keys)) m
      → All (IsFilled (Tracked (remove k keys))) m
  others [] o s f = tt
  others ((b, r) ∷ m) o s f = (away b r.confirmed_nonce r.slots o.0 s.0 f.0, others m o.1 s.1 f.1)

  -- The queue of the key's account, put back after the slot is cleared.
  pub put-removed :
      (q : AccountQueue) (m : Accounts)
      → Filled (Tracked (remove k keys)) q.slots
      → Placed m
      → All (IsFilled (Tracked keys)) m
      → All (IsFilled (Tracked (remove k keys))) (put k.addr q m)
  unfolding put
  put-removed q [] g p f = (g, tt)
  put-removed q ((b, r) ∷ m) g p f = elim (Bool-cases (k.addr == b)) [
    | inl same ↦
        let e : k.addr ≡ b = ==→eq k.addr b same in
        let o : All (Other k.addr) m = rw e p.1.0 in rw (put, same) (g, others m o p.0.1 f.1)
    | inr other ↦
        let o = ==→ne k.addr b other in
        rw (put, other)
          (
            away b r.confirmed_nonce r.slots (λ e. o (sym e)) p.0.0 f.0,
            put-removed q m g (p.0.1, p.1.1) f.1,
          )
  ]
