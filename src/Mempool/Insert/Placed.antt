-- ===== src/Mempool/Insert/Placed.antt =====
-- crates/mempooloracle/src/lib.rs: `insert` keeps every transaction at the place of its nonce.
use bulkmail.Prelude.{
  ◌+◌, ◌-◌, ◌≤◌, ◌≡◌, refl, subst, [], ◌∷◌, Option, none, some, arith, length, leb, ltb, if_either,
  Bool-cases, Option-cases, inl, inr, ltb→lt, ltb→le,
}
use bulkmail.Mempool.Index.{Key, Keys}
use bulkmail.Mempool.Queues.{PendingTx, AccountQueue, lookup}
use bulkmail.Mempool.Queues.Slotted.{
  Slotted, IsSlotted, set-none-Slotted, set-some-Slotted, append_gap-Slotted, prepend_gap-Slotted,
}
use bulkmail.Mempool.Queues.Placed.{Placed, lookup-Placed, put-Placed}
use bulkmail.Mempool.{MempoolInner, effective_priority_fee}
use bulkmail.Mempool.Insert.{
  clear_slot, evict, evict_first, make_room, fill_slot, place, queue_of, insert,
}

-- Every account queue of a state is so.
abbrev pub IsPlaced : {F : Type 0} → MempoolInner F → Type 0
IsPlaced m = Placed m.account_queues

module _ {F : Type 0} where
  clear_slot-IsPlaced :
      (k : Key) (q : AccountQueue) (o : Option PendingTx) (m : MempoolInner F)
      → IsSlotted (k.addr, q)
      → IsPlaced m
      → IsPlaced (clear_slot k q o m)
  unfolding clear_slot
  clear_slot-IsPlaced k q none m s w = w
  clear_slot-IsPlaced k q (some tx) m s w =
      put-Placed k.addr _ m.account_queues (set-none-Slotted k.addr q.confirmed_nonce _ q.slots s) w

  evict-IsPlaced :
      (k : Key) (rest : Keys) (m : MempoolInner F) → IsPlaced m → IsPlaced (evict k rest m)
  unfolding evict
  evict-IsPlaced k rest m w = elim (Option-cases (lookup k.addr m.account_queues)) [
    | inl e ↦ rw (e, evict) w
    | inr (q, e) ↦
        rw (e, evict)
          (clear_slot-IsPlaced k q _ (record m { priority_queue = rest })
            (lookup-Placed k.addr m.account_queues q w e) w)
  ]

  evict_first-IsPlaced :
      (tx : PendingTx) (ks : Keys) (m m' : MempoolInner F)
      → IsPlaced m
      → evict_first tx ks m ≡ some m'
      → IsPlaced m'
  unfolding evict_first
  evict_first-IsPlaced tx [] m m' w h = cc
  evict_first-IsPlaced tx (k ∷ rest) m m' w h =
      elim (Bool-cases (leb (effective_priority_fee m.current_base_fee tx) k.fee)) [
        | inl low ↦ cc
        | inr high ↦ let same : evict k rest m ≡ m' = cc in rw (← same) (evict-IsPlaced k rest m w)
      ]

  make_room-IsPlaced :
      (tx : PendingTx) (m m' : MempoolInner F) → IsPlaced m → make_room tx m ≡ some m' → IsPlaced m'
  unfolding make_room
  make_room-IsPlaced tx m m' w h =
      elim (Bool-cases (leb m.config.global_capacity (length m.base_fee_eligibility))) [
        | inl full ↦ evict_first-IsPlaced tx m.priority_queue m m' w cc
        | inr room ↦ let same : m ≡ m' = cc in subst (λ n. IsPlaced n) same w
      ]

  fill_slot-IsPlaced :
      (tx : PendingTx) (q : AccountQueue) (m : MempoolInner F)
      → q.confirmed_nonce ≤ tx.nonce
      → IsSlotted (tx.sender, q)
      → IsPlaced m
      → IsPlaced (fill_slot tx q m)
  unfolding fill_slot
  fill_slot-IsPlaced tx q m h s w =
      if_either IsPlaced (leb m.config.per_account_capacity (tx.nonce - q.confirmed_nonce))
        (λ _. put-Placed tx.sender q m.account_queues s w)
        (λ _.
          put-Placed tx.sender _ m.account_queues
            (set-some-Slotted tx.sender q.confirmed_nonce (tx.nonce - q.confirmed_nonce) _ tx refl
              (omega arith)
              (if_either (Slotted tx.sender q.confirmed_nonce)
                (leb (length q.slots) (tx.nonce - q.confirmed_nonce))
                (λ _. append_gap-Slotted tx.sender q.confirmed_nonce _ q.slots s) (λ _. s)))
            w)

  place-IsPlaced :
      (tx : PendingTx) (q : AccountQueue) (m : MempoolInner F)
      → IsSlotted (tx.sender, q)
      → IsPlaced m
      → IsPlaced (place tx q m)
  unfolding place
  place-IsPlaced tx q m s w = elim (Bool-cases (ltb tx.nonce q.confirmed_nonce)) [
    | inr up ↦ rw (up, place) (fill_slot-IsPlaced tx q m (ltb→le _ _ up) s w)
    | inl down ↦
        elim (Bool-cases
          (ltb m.config.per_account_capacity (q.confirmed_nonce - tx.nonce + length q.slots))) [
            | inl over ↦ rw (down, over, place) (put-Placed tx.sender q m.account_queues s w)
            | inr fits ↦
                rw (down, fits, place)
                  (fill_slot-IsPlaced tx _ m (omega arith)
                    (prepend_gap-Slotted tx.sender tx.nonce (q.confirmed_nonce - tx.nonce) q.slots
                      (subst (λ k. Slotted tx.sender k q.slots) (omega (arith, ltb→lt _ _ down)) s))
                    w)
          ]
  ]

  queue_of-IsSlotted :
      (tx : PendingTx) (m : MempoolInner F) → IsPlaced m → IsSlotted (tx.sender, queue_of tx m)
  unfolding queue_of
  queue_of-IsSlotted tx m w = elim (Option-cases (lookup tx.sender m.account_queues)) [
    | inl e ↦ rw (e, queue_of) tt
    | inr (q, e) ↦ rw (e, queue_of) (lookup-Placed tx.sender m.account_queues q w e)
  ]

  pub insert-IsPlaced : (tx : PendingTx) (m : MempoolInner F) → IsPlaced m → IsPlaced (insert tx m)
  unfolding insert
  insert-IsPlaced tx m w = elim (Option-cases (make_room tx m)) [
    | inl e ↦ rw (e, insert) w
    | inr (m', e) ↦
        let w' = make_room-IsPlaced tx m m' w e in
        rw (e, insert) (place-IsPlaced tx (queue_of tx m') m' (queue_of-IsSlotted tx m' w') w')
  ]
