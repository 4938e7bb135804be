-- ===== src/Mempool/Insert/Eviction.antt =====
-- crates/mempooloracle/src/lib.rs: the order of the priority queue, and what `insert` evicts.
use bulkmail.Prelude.{
  ◌∙◌, ◌+◌, subst, le→leb, ltb, ◌-◌, if◌then◌else◌, Option-cases, ◌≤◌, ◌≡◌, refl, inl, inr, [], ◌∷◌,
  true, false, Option, none, some, All, length, leb, Bool-cases, if_either,
}
use bulkmail.Mempool.Index.{Key, Keys}
use bulkmail.Mempool.Index.Sorted.{Sorted, NotAbove, Sorted-FeesDescend, insert_key-Sorted}
use bulkmail.Mempool.Queues.{PendingTx, AccountQueue, lookup}
use bulkmail.Mempool.{MempoolInner, effective_priority_fee}
use bulkmail.Mempool.Insert.{
  clear_slot, evict, evict_first, make_room, fill_slot, place, queue_of, insert,
}

-- The queue of a state is in its order.
abbrev pub IsOrdered : {F : Type 0} → MempoolInner F → Type 0
IsOrdered m = Sorted m.priority_queue

module _ {F : Type 0} where
  clear_slot-queue :
      (k : Key) (q : AccountQueue) (o : Option PendingTx) (m : MempoolInner F)
      → (clear_slot k q o m).priority_queue ≡ m.priority_queue
  unfolding clear_slot
  clear_slot-queue k q none m = refl
  clear_slot-queue k q (some tx) m = refl

  pub evict-queue :
      (k : Key) (rest : Keys) (m : MempoolInner F) → (evict k rest m).priority_queue ≡ rest
  unfolding evict
  evict-queue k rest m = elim (Option-cases (lookup k.addr m.account_queues)) [
    | inl e ↦ rw (e, evict) refl
    | inr (q, e) ↦ rw (e, evict) (clear_slot-queue k q _ (record m { priority_queue = rest }))
  ]

  fill_slot-IsOrdered :
      (tx : PendingTx) (q : AccountQueue) (m : MempoolInner F)
      → IsOrdered m
      → IsOrdered (fill_slot tx q m)
  unfolding fill_slot
  fill_slot-IsOrdered tx q m d =
      if_either IsOrdered (leb m.config.per_account_capacity (tx.nonce - q.confirmed_nonce))
        (λ _. d) (λ _. insert_key-Sorted _ m.priority_queue d)

  place-IsOrdered :
      (tx : PendingTx) (q : AccountQueue) (m : MempoolInner F)
      → IsOrdered m
      → IsOrdered (place tx q m)
  unfolding place
  place-IsOrdered tx q m d = elim (Bool-cases (ltb tx.nonce q.confirmed_nonce)) [
    | inr up ↦ rw (up, place) (fill_slot-IsOrdered tx q m d)
    | inl down ↦
        elim (Bool-cases
          (ltb m.config.per_account_capacity (q.confirmed_nonce - tx.nonce + length q.slots))) [
            | inl over ↦ rw (down, over, place) d
            | inr fits ↦ rw (down, fits, place) (fill_slot-IsOrdered tx _ m d)
          ]
  ]

  make_room_full :
      (tx : PendingTx) (m : MempoolInner F)
      → m.config.global_capacity ≤ length m.base_fee_eligibility
      → make_room tx m ≡ evict_first tx m.priority_queue m
  unfolding make_room
  make_room_full tx m full =
      rw (le→leb m.config.global_capacity (length m.base_fee_eligibility) full) refl

  evict_first-IsOrdered :
      (tx : PendingTx) (ks : Keys) (m m' : MempoolInner F)
      → Sorted ks
      → evict_first tx ks m ≡ some m'
      → IsOrdered m'
  unfolding evict_first
  evict_first-IsOrdered tx [] m m' d h = cc
  evict_first-IsOrdered tx (k ∷ rest) m m' d h =
      elim (Bool-cases (leb (effective_priority_fee m.current_base_fee tx) k.fee)) [
        | inl low ↦ cc
        | inr high ↦ let same : evict k rest m ≡ m' = cc in rw (← same, evict-queue k rest m) d.1
      ]

  make_room-IsOrdered :
      (tx : PendingTx) (m m' : MempoolInner F)
      → IsOrdered m
      → make_room tx m ≡ some m'
      → IsOrdered m'
  unfolding make_room
  make_room-IsOrdered tx m m' d h =
      elim (Bool-cases (leb m.config.global_capacity (length m.base_fee_eligibility))) [
        | inl full ↦ evict_first-IsOrdered tx m.priority_queue m m' d cc
        | inr room ↦ let same : m ≡ m' = cc in subst (λ n. IsOrdered n) same d
      ]

  pub insert-IsOrdered :
      (tx : PendingTx) (m : MempoolInner F) → IsOrdered m → IsOrdered (insert tx m)
  unfolding insert
  insert-IsOrdered tx m d = elim (Option-cases (make_room tx m)) [
    | inl e ↦ rw (e, insert) d
    | inr (m', e) ↦
        rw (e, insert) (place-IsOrdered tx (queue_of tx m') m' (make_room-IsOrdered tx m m' d e))
  ]

  -- What an insertion does at capacity, by the first key of the queue.
  abbrev pub Evicts : PendingTx → MempoolInner F → Keys → Type 0
  Evicts tx m [] = insert tx m ≡ m
  Evicts tx m (k ∷ rest) =
      All (NotAbove k) rest
      × (insert tx m ≡ (
          if leb (effective_priority_fee m.current_base_fee tx) k.fee
          then m
          else place tx (queue_of tx (evict k rest m)) (evict k rest m)))

  insert_refused : (tx : PendingTx) (m : MempoolInner F) → make_room tx m ≡ none → insert tx m ≡ m
  unfolding insert
  insert_refused tx m e = rw (e, insert) refl

  pub insert_placed :
      (tx : PendingTx) (m m' : MempoolInner F)
      → make_room tx m ≡ some m'
      → insert tx m ≡ place tx (queue_of tx m') m'
  unfolding insert
  insert_placed tx m m' e = rw (e, insert) refl

  evict_first_low :
      (tx : PendingTx) (m : MempoolInner F) (k : Key) (rest : Keys)
      → leb (effective_priority_fee m.current_base_fee tx) k.fee ≡ true
      → evict_first tx (k ∷ rest) m ≡ none
  unfolding evict_first
  evict_first_low tx m k rest low = rw low refl

  evict_first_high :
      (tx : PendingTx) (m : MempoolInner F) (k : Key) (rest : Keys)
      → leb (effective_priority_fee m.current_base_fee tx) k.fee ≡ false
      → evict_first tx (k ∷ rest) m ≡ some (evict k rest m)
  unfolding evict_first
  evict_first_high tx m k rest high = rw high refl

  insert-Evicts_at :
      (tx : PendingTx) (m : MempoolInner F) (ks : Keys)
      → make_room tx m ≡ evict_first tx ks m
      → Sorted ks
      → Evicts tx m ks
  unfolding evict_first
  insert-Evicts_at tx m [] e d = insert_refused tx m e
  insert-Evicts_at tx m (k ∷ rest) e d =
      elim (Bool-cases (leb (effective_priority_fee m.current_base_fee tx) k.fee)) [
        | inl low ↦ (
          (Sorted-FeesDescend (k ∷ rest) d).0,
          rw low (insert_refused tx m (e ∙ evict_first_low tx m k rest low)),
        )
        | inr high ↦ (
          (Sorted-FeesDescend (k ∷ rest) d).0,
          rw high (insert_placed tx m (evict k rest m) (e ∙ evict_first_high tx m k rest high)),
        )
      ]

  -- At capacity, where the priority queue is in its order: with an empty queue nothing is inserted;
  -- otherwise the first key has the highest fee of all, the insertion changes nothing unless the
  -- new transaction pays more than that, and if it does, the transaction of that key is evicted and
  -- the new one placed.
  pub insert-Evicts :
      (tx : PendingTx) (m : MempoolInner F)
      → IsOrdered m
      → m.config.global_capacity ≤ length m.base_fee_eligibility
      → Evicts tx m m.priority_queue
  insert-Evicts tx m d full = insert-Evicts_at tx m m.priority_queue (make_room_full tx m full) d
