-- ===== src/Mempool/Insert/Evicted.antt =====
-- crates/mempooloracle/src/lib.rs: what the searches by account and nonce find after an eviction.
use bulkmail.Prelude.{
  ℕ, zero, suc, ◌-◌, ◌≤◌, ◌<◌, ◌≡◌, ◌⊎◌, leb→lt, refl, ap, ◌∙◌, sym, List, [], ◌∷◌, Option, none,
  some, arith, set, ◌==◌, ◌&&◌, if◌then◌else◌, leb, All, Bool-cases, Option-cases, inl, inr,
  u64_mod, sub_u64, ==→eq, leb→le,
}
use bulkmail.Mempool.Index.{Key, Keys}
use bulkmail.Mempool.Index.Sorted.{NotAbove}
use bulkmail.Mempool.Queues.{PendingTx, AccountQueue, lookup, lookup-put, slot_at}
use bulkmail.Mempool.Queues.Placed.{lookup-Placed}
use bulkmail.Mempool.Queues.Slotted.{Slotted-slot_at}
use bulkmail.Mempool.Queues.Filled.{Filled-slot_at, lookup-IsFilled}
use bulkmail.Mempool.{MempoolInner, effective_priority_fee}
use bulkmail.Mempool.Insert.{clear_slot, evict, place, queue_of, insert}
use bulkmail.Mempool.Insert.Removed.{Tracked}
use bulkmail.Mempool.Insert.Placed.{IsPlaced}
use bulkmail.Mempool.Insert.Indexed.{IsIndexed, IsSmall}
use bulkmail.Mempool.Insert.Eviction.{Evicts, evict-queue}
use bulkmail.Mempool.Query.{find_tx_by_addr_and_nonce}

slot_at-set-none :
    (slots : List (Option PendingTx)) (i j : ℕ)
    → slot_at (set slots i none) j ≡ (if i == j then none else slot_at slots j)
unfolding slot_at
slot_at-set-none [] i j = ground arith
slot_at-set-none (o ∷ slots) zero zero = refl
slot_at-set-none (o ∷ slots) zero (suc j) = ground arith
slot_at-set-none (o ∷ slots) (suc i) zero = ground arith
slot_at-set-none (o ∷ slots) (suc i) (suc j) = ground (arith, slot_at-set-none slots i j)

-- A search of the queue whose slot `i`, of the nonce `k`, was emptied.
slot_gone :
    (c k n i : ℕ) (x : Option PendingTx)
    → c ≤ k
    → i ≡ k - c
    → (if leb c n then (if i == n - c then none else x) else none)
      ≡ (if n == k then none else (if leb c n then x else none))
slot_gone c k n i x h e = ground arith

module _ {F : Type 0} where
  -- A transaction at the slot of a key stands at the key's nonce: the index has not wrapped.
  not_wrapped :
      (k : Key) (q : AccountQueue) (tx : PendingTx) (m : MempoolInner F)
      → k.nonce < u64_mod
      → lookup k.addr m.account_queues ≡ some q
      → slot_at q.slots (sub_u64 k.nonce q.confirmed_nonce) ≡ some tx
      → IsPlaced m
      → IsIndexed m
      → q.confirmed_nonce ≤ k.nonce
  not_wrapped k q tx m small found at p w =
      let s = lookup-Placed k.addr m.account_queues q p found in
      let i = sub_u64 k.nonce q.confirmed_nonce in
      let own = Slotted-slot_at k.addr q.confirmed_nonce i q.slots tx s at in
      let tracked =
        Filled-slot_at (Tracked m.base_fee_eligibility) i q.slots tx
          (lookup-IsFilled (Tracked m.base_fee_eligibility) k.addr m.account_queues q w.0 found)
          at in
      omega (arith, own.1, tracked.1, small)

  find-in :
      (m : MempoolInner F) (q : AccountQueue) (a n : ℕ)
      → lookup a m.account_queues ≡ some q
      → find_tx_by_addr_and_nonce m a n
        ≡ (if leb q.confirmed_nonce n then slot_at q.slots (n - q.confirmed_nonce) else none)
  unfolding find_tx_by_addr_and_nonce
  find-in m q a n e = rw (e, find_tx_by_addr_and_nonce) refl

  find-missing :
      (m : MempoolInner F) (a n : ℕ)
      → lookup a m.account_queues ≡ none
      → find_tx_by_addr_and_nonce m a n ≡ none
  unfolding find_tx_by_addr_and_nonce
  find-missing m a n e = rw (e, find_tx_by_addr_and_nonce) refl

  find-same :
      (m m' : MempoolInner F) (a n : ℕ)
      → lookup a m'.account_queues ≡ lookup a m.account_queues
      → find_tx_by_addr_and_nonce m' a n ≡ find_tx_by_addr_and_nonce m a n
  unfolding find_tx_by_addr_and_nonce
  find-same m m' a n e = rw (e, find_tx_by_addr_and_nonce) refl

  -- A state without the transaction, if any, of an account and nonce, and with all others.
  abbrev pub Without : ℕ → ℕ → MempoolInner F → MempoolInner F → Type 0
  Without addr nonce m m' =
      (a n : ℕ)
      → find_tx_by_addr_and_nonce m' a n
        ≡ (if a == addr && n == nonce then none else find_tx_by_addr_and_nonce m a n)

  -- Where there is nothing at the key, nothing changes.
  nothing-Without :
      (k : Key) (rest : Keys) (m : MempoolInner F)
      → find_tx_by_addr_and_nonce m k.addr k.nonce ≡ none
      → Without k.addr k.nonce m (record m { priority_queue = rest })
  nothing-Without k rest m h a n = elim (Bool-cases (a == k.addr && n == k.nonce)) [
    | inr other ↦ rw other (find-same m (record m { priority_queue = rest }) a n refl)
    | inl here ↦
        let e : a ≡ k.addr = ==→eq a k.addr (ground arith) in
        let f : n ≡ k.nonce = ==→eq n k.nonce (ground arith) in
        rw here (
          find-same m (record m { priority_queue = rest }) a n refl
          ∙ ap (λ x. find_tx_by_addr_and_nonce m x n) e
          ∙ ap (find_tx_by_addr_and_nonce m k.addr) f
          ∙ h)
  ]

  empty_slot :
      (k : Key) (q : AccountQueue) (m : MempoolInner F)
      → k.nonce < u64_mod
      → lookup k.addr m.account_queues ≡ some q
      → slot_at q.slots (sub_u64 k.nonce q.confirmed_nonce) ≡ none
      → find_tx_by_addr_and_nonce m k.addr k.nonce ≡ none
  empty_slot k q m small found at = elim (Bool-cases (leb q.confirmed_nonce k.nonce)) [
    | inr below ↦ find-in m q k.addr k.nonce found ∙ (rw below refl)
    | inl above ↦
        let i : sub_u64 k.nonce q.confirmed_nonce ≡ k.nonce - q.confirmed_nonce =
          omega (arith, leb→le _ _ above, small) in
        find-in m q k.addr k.nonce found ∙ (rw above (ap (slot_at q.slots) (sym i) ∙ at))
  ]

  clear_slot-Without :
      (k : Key) (q : AccountQueue) (o : Option PendingTx) (rest : Keys) (m : MempoolInner F)
      → k.nonce < u64_mod
      → lookup k.addr m.account_queues ≡ some q
      → slot_at q.slots (sub_u64 k.nonce q.confirmed_nonce) ≡ o
      → IsPlaced m
      → IsIndexed m
      → Without k.addr k.nonce m (clear_slot k q o (record m { priority_queue = rest }))
  unfolding clear_slot
  clear_slot-Without k q none rest m small found at p w a n =
      nothing-Without k rest m (empty_slot k q m small found at) a n
  clear_slot-Without k q (some tx) rest m small found at p w a n =
      let i = sub_u64 k.nonce q.confirmed_nonce in
      let q' : AccountQueue = record q { slots = set q.slots i none } in
      let m' = clear_slot k q (some tx) (record m { priority_queue = rest }) in
      let low = not_wrapped k q tx m small found at p w in
      elim (Bool-cases (a == k.addr)) [
        | inr other ↦
            let same : lookup a m'.account_queues ≡ lookup a m.account_queues =
              lookup-put k.addr a q' m.account_queues ∙ (rw other refl) in
            rw other (find-same m m' a n same)
        | inl here ↦
            let there : lookup a m'.account_queues ≡ some q' =
              lookup-put k.addr a q' m.account_queues ∙ (rw here refl) in
            let before : lookup a m.account_queues ≡ some q =
              ap (λ x. lookup x m.account_queues) (==→eq a k.addr here) ∙ found in
            find-in m' q' a n there
            ∙ ap (λ o. if leb q.confirmed_nonce n then o else none)
                (slot_at-set-none q.slots i (n - q.confirmed_nonce))
            ∙ slot_gone q.confirmed_nonce k.nonce n i (slot_at q.slots (n - q.confirmed_nonce)) low
                (omega (arith, low, small))
            ∙ (rw here (ap (λ o. if n == k.nonce then none else o) (sym (find-in m q a n before))))
      ]

  evict-Without :
      (k : Key) (rest : Keys) (m : MempoolInner F)
      → k.nonce < u64_mod
      → IsPlaced m
      → IsIndexed m
      → Without k.addr k.nonce m (evict k rest m)
  unfolding evict
  evict-Without k rest m small p w = elim (Option-cases (lookup k.addr m.account_queues)) [
    | inl e ↦ rw (e, evict) (nothing-Without k rest m (find-missing m k.addr k.nonce e))
    | inr (q, e) ↦
        rw (e, evict)
          (clear_slot-Without k q (slot_at q.slots (sub_u64 k.nonce q.confirmed_nonce)) rest m small
            e refl p w)
  ]

  -- What an insertion does at capacity, by the first key of the queue.
  abbrev pub MakesRoom : PendingTx → MempoolInner F → Keys → Type 0
  MakesRoom tx m [] = insert tx m ≡ m
  MakesRoom tx m (k ∷ rest) =
      All (NotAbove k) rest
      × (((effective_priority_fee m.current_base_fee tx ≤ k.fee) × (insert tx m ≡ m))
          ⊎ ((k.fee < effective_priority_fee m.current_base_fee tx)
              × ((m' : MempoolInner F) × (insert tx m ≡ place tx (queue_of tx m') m')
                  × (m'.priority_queue ≡ rest)
                  × Without k.addr k.nonce m m')))

  pub Evicts-MakesRoom :
      (tx : PendingTx) (m : MempoolInner F) (ks : Keys)
      → All IsSmall ks
      → IsPlaced m
      → IsIndexed m
      → Evicts tx m ks
      → MakesRoom tx m ks
  Evicts-MakesRoom tx m [] small p w e = e
  Evicts-MakesRoom tx m (k ∷ rest) small p w (highest, e) =
      elim (Bool-cases (leb (effective_priority_fee m.current_base_fee tx) k.fee)) [
        | inl low ↦ (highest, inl (leb→le _ _ low, e ∙ (rw low refl)))
        | inr high ↦ (
          highest,
          inr (
            leb→lt _ _ high,
            (
              evict k rest m,
              e ∙ (rw high refl),
              evict-queue k rest m,
              evict-Without k rest m small.0 p w,
            ),
          ),
        )
      ]
