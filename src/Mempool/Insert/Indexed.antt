-- ===== src/Mempool/Insert/Indexed.antt =====
-- crates/mempooloracle/src/lib.rs: `insert` keeps every tracked transaction in `base_fee_eligibility`.
use bulkmail.Prelude.{
  ◌+◌, ◌-◌, ◌<◌, ◌≡◌, ◌⊎◌, refl, subst, [], ◌∷◌, Option, none, some, arith, length, leb, ltb, set,
  Bool, if_either, All, All-mono, true, Bool-cases, Option-cases, inl, inr, u64_mod, sub_u64,
}
use bulkmail.Mempool.Index.{
  Key, Keys, insert as insert_key, contains-insert, same_key, ascending, descending,
}
use bulkmail.Mempool.Queues.{PendingTx, AccountQueue, lookup, slot_at}
use bulkmail.Mempool.Queues.Placed.{lookup-Placed}
use bulkmail.Mempool.Queues.Filled.{
  Filled, IsFilled, Filled-mono, set-some-Filled, append_gap-Filled, prepend_gap-Filled,
  lookup-IsFilled, put-IsFilled,
}
use bulkmail.Mempool.{MempoolInner, effective_priority_fee}
use bulkmail.Mempool.Insert.{
  eligibility_key, priority_key, clear_slot, evict, evict_first, make_room, fill_slot, place,
  queue_of, insert,
}
use bulkmail.Mempool.Insert.Placed.{IsPlaced}
use bulkmail.Mempool.Insert.Removed.{Tracked, cleared, put-removed}

abbrev pub IsSmall : Key → Type 0
IsSmall k = k.nonce < u64_mod

pub insert_key-IsSmall :
    (before : Key → Key → Bool) (k : Key) (s : Keys)
    → IsSmall k
    → All IsSmall s
    → All IsSmall (insert_key before k s)
unfolding insert_key
insert_key-IsSmall before k [] h a = (h, tt)
insert_key-IsSmall before k (x ∷ s) h a =
    if_either (All IsSmall) (same_key k x) (λ _. a)
      (λ _.
        if_either (All IsSmall) (before k x) (λ _. (h, a))
          (λ _. (a.0, insert_key-IsSmall before k s h a.1)))

-- Every transaction in a slot is in the index by its own key, and all nonces are of 64 bits.
abbrev pub IsIndexed : {F : Type 0} → MempoolInner F → Type 0
IsIndexed m =
    All (IsFilled (Tracked m.base_fee_eligibility)) m.account_queues × All IsSmall m.priority_queue

insert_key-Tracked :
    (k : Key) (keys : Keys) (tx : PendingTx)
    → Tracked keys tx
    → Tracked (insert_key ascending k keys) tx
insert_key-Tracked k keys tx h = (
  rw (contains-insert ascending (eligibility_key tx) k keys)
      (if_either (λ b. b ≡ true) (same_key (eligibility_key tx) k) (λ _. refl) (λ _. h.0)),
  h.1,
)

insert_key-own :
    (tx : PendingTx) (keys : Keys)
    → tx.nonce < u64_mod
    → Tracked (insert_key ascending (eligibility_key tx) keys) tx
insert_key-own tx keys h = (
  rw (contains-insert ascending (eligibility_key tx) (eligibility_key tx) keys) (ground arith),
  h,
)

module _ {F : Type 0} where
  clear_slot-IsIndexed :
      (k : Key) (q : AccountQueue) (o : Option PendingTx) (m : MempoolInner F)
      → IsSmall k
      → lookup k.addr m.account_queues ≡ some q
      → slot_at q.slots (sub_u64 k.nonce q.confirmed_nonce) ≡ o
      → IsPlaced m
      → IsIndexed m
      → IsIndexed (clear_slot k q o m)
  unfolding clear_slot
  clear_slot-IsIndexed k q none m small found at p w = w
  clear_slot-IsIndexed k q (some tx) m small found at p w =
      let gone : Key = record { fee = tx.max_fee_per_gas; addr = k.addr; nonce = k.nonce } in
      let s = lookup-Placed k.addr m.account_queues q p found in
      let f =
        lookup-IsFilled (Tracked m.base_fee_eligibility) k.addr m.account_queues q w.0 found in
      let here : (k.nonce ≡ q.confirmed_nonce + sub_u64 k.nonce q.confirmed_nonce)
          ⊎ (k.nonce < q.confirmed_nonce) =
        elim (Bool-cases (ltb k.nonce q.confirmed_nonce)) [
          | inl below ↦ inr (ground (arith, below))
          | inr above ↦ inl (ground (arith, above, small))
        ] in
      let g =
        cleared m.base_fee_eligibility gone k.addr q.confirmed_nonce
          (sub_u64 k.nonce q.confirmed_nonce) q.slots here s f in
      (
        put-removed m.base_fee_eligibility gone
            (record q { slots = set q.slots (sub_u64 k.nonce q.confirmed_nonce) none })
            m.account_queues g p w.0,
        w.1,
      )

  evict-IsIndexed :
      (k : Key) (rest : Keys) (m : MempoolInner F)
      → IsSmall k
      → All IsSmall rest
      → IsPlaced m
      → IsIndexed m
      → IsIndexed (evict k rest m)
  unfolding evict
  evict-IsIndexed k rest m small smalls p w = elim (Option-cases (lookup k.addr m.account_queues)) [
    | inl e ↦ rw (e, evict) (w.0, smalls)
    | inr (q, e) ↦
        rw (e, evict)
          (clear_slot-IsIndexed k q (slot_at q.slots (sub_u64 k.nonce q.confirmed_nonce))
            (record m { priority_queue = rest }) small e refl p (w.0, smalls))
  ]

  evict_first-IsIndexed :
      (tx : PendingTx) (ks : Keys) (m m' : MempoolInner F)
      → All IsSmall ks
      → IsPlaced m
      → IsIndexed m
      → evict_first tx ks m ≡ some m'
      → IsIndexed m'
  unfolding evict_first
  evict_first-IsIndexed tx [] m m' a p w h = absurd (cc)
  evict_first-IsIndexed tx (k ∷ rest) m m' a p w h =
      elim (Bool-cases (leb (effective_priority_fee m.current_base_fee tx) k.fee)) [
        | inl low ↦ absurd (cc)
        | inr high ↦
            let same : evict k rest m ≡ m' = cc in
            rw (← same) (evict-IsIndexed k rest m a.0 a.1 p w)
      ]

  make_room-IsIndexed :
      (tx : PendingTx) (m m' : MempoolInner F)
      → IsPlaced m
      → IsIndexed m
      → make_room tx m ≡ some m'
      → IsIndexed m'
  unfolding make_room
  make_room-IsIndexed tx m m' p w h =
      elim (Bool-cases (leb m.config.global_capacity (length m.base_fee_eligibility))) [
        | inl full ↦ evict_first-IsIndexed tx m.priority_queue m m' w.1 p w cc
        | inr room ↦ let same : m ≡ m' = cc in subst (λ n. IsIndexed n) same w
      ]

  fill_slot-IsIndexed :
      (tx : PendingTx) (q : AccountQueue) (m : MempoolInner F)
      → tx.nonce < u64_mod
      → Filled (Tracked m.base_fee_eligibility) q.slots
      → IsIndexed m
      → IsIndexed (fill_slot tx q m)
  unfolding fill_slot
  fill_slot-IsIndexed tx q m small f w =
      let keys = m.base_fee_eligibility in
      let keys' = insert_key ascending (eligibility_key tx) keys in
      let on = insert_key-Tracked (eligibility_key tx) keys in
      let old : Filled (Tracked keys') q.slots =
        Filled-mono (Tracked keys) (Tracked keys') q.slots on f in
      if_either IsIndexed (leb m.config.per_account_capacity (tx.nonce - q.confirmed_nonce))
        (λ _. (put-IsFilled (Tracked keys) tx.sender q m.account_queues f w.0, w.1))
        (λ _. (
          put-IsFilled (Tracked keys') tx.sender _ m.account_queues
              (set-some-Filled (Tracked keys') (tx.nonce - q.confirmed_nonce) _ tx
                (insert_key-own tx keys small)
                (if_either (Filled (Tracked keys'))
                  (leb (length q.slots) (tx.nonce - q.confirmed_nonce))
                  (λ _. append_gap-Filled (Tracked keys') _ q.slots old) (λ _. old)))
              (All-mono (IsFilled (Tracked keys)) (IsFilled (Tracked keys')) m.account_queues
                (λ e g. Filled-mono (Tracked keys) (Tracked keys') e.1.slots on g) w.0),
          insert_key-IsSmall descending (priority_key m.current_base_fee tx) m.priority_queue small
              w.1,
        ))

  place-IsIndexed :
      (tx : PendingTx) (q : AccountQueue) (m : MempoolInner F)
      → tx.nonce < u64_mod
      → Filled (Tracked m.base_fee_eligibility) q.slots
      → IsIndexed m
      → IsIndexed (place tx q m)
  unfolding place
  place-IsIndexed tx q m small f w =
      if_either IsIndexed (ltb tx.nonce q.confirmed_nonce)
        (λ _.
          if_either IsIndexed
            (ltb m.config.per_account_capacity (q.confirmed_nonce - tx.nonce + length q.slots))
            (λ _. (
              put-IsFilled (Tracked m.base_fee_eligibility) tx.sender q m.account_queues f w.0,
              w.1,
            ))
            (λ _.
              fill_slot-IsIndexed tx _ m small
                (prepend_gap-Filled (Tracked m.base_fee_eligibility) (q.confirmed_nonce - tx.nonce)
                  q.slots f)
                w))
        (λ _. fill_slot-IsIndexed tx q m small f w)

  queue_of-Filled :
      (tx : PendingTx) (m : MempoolInner F)
      → IsIndexed m
      → Filled (Tracked m.base_fee_eligibility) (queue_of tx m).slots
  unfolding queue_of
  queue_of-Filled tx m w = elim (Option-cases (lookup tx.sender m.account_queues)) [
    | inl e ↦ rw (e, queue_of) tt
    | inr (q, e) ↦
        rw (e, queue_of)
          (lookup-IsFilled (Tracked m.base_fee_eligibility) tx.sender m.account_queues q w.0 e)
  ]

  pub insert-IsIndexed :
      (tx : PendingTx) (m : MempoolInner F)
      → tx.nonce < u64_mod
      → IsPlaced m
      → IsIndexed m
      → IsIndexed (insert tx m)
  unfolding insert
  insert-IsIndexed tx m small p w = elim (Option-cases (make_room tx m)) [
    | inl e ↦ rw (e, insert) w
    | inr (m', e) ↦
        let w' = make_room-IsIndexed tx m m' p w e in
        rw (e, insert) (place-IsIndexed tx (queue_of tx m') m' small (queue_of-Filled tx m' w') w')
  ]
