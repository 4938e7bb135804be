-- ===== src/Mempool/Insert/Bounded.antt =====
-- crates/mempooloracle/src/lib.rs: `insert` keeps every account queue within its capacity.
use bulkmail.Prelude.{
  ℕ, ◌+◌, ◌-◌, ◌≤◌, ◌<◌, ◌≡◌, subst, [], ◌∷◌, List, Option, none, some, arith, length, leb, ltb,
  if_either, Bool-cases, Option-cases, inl, inr, set, replicate, if◌then◌else◌, length-set,
  length-append-replicate, length-append, length-replicate,
}
use bulkmail.Mempool.Index.{Key, Keys}
use bulkmail.Mempool.Queues.{PendingTx, AccountQueue, lookup}
use bulkmail.Mempool.Queues.Bounded.{AllWithin, lookup-Within, put-AllWithin}
use bulkmail.Mempool.{MempoolInner, effective_priority_fee}
use bulkmail.Mempool.Insert.{
  clear_slot, evict, evict_first, make_room, fill_slot, place, queue_of, insert, resize,
}

-- The configured capacity is `most`, and no account queue is longer.
abbrev pub IsBounded : {F : Type 0} → ℕ → MempoolInner F → Type 0
IsBounded most m = (m.config.per_account_capacity ≡ most) × AllWithin most m.account_queues

-- Where the place is below the capacity, so is the length after the write to it.
length-filled :
    (most i : ℕ) (slots : List (Option PendingTx)) (o : Option PendingTx)
    → i < most
    → length slots ≤ most
    → length (set (if leb (length slots) i then resize slots (i + 1) else slots) i o) ≤ most
length-filled most i slots o h w = elim (Bool-cases (leb (length slots) i)) [
  | inr inside ↦ rw inside (omega (arith, length-set slots i o))
  | inl beyond ↦
      let gap : Option PendingTx = none in
      rw beyond (
        ground (
          arith,
          length-set (resize slots (i + 1)) i o,
          length-append-replicate slots (i + 1 - length slots) gap,
        ))
]

module _ {F : Type 0} (most : ℕ) where
  clear_slot-IsBounded :
      (k : Key) (q : AccountQueue) (o : Option PendingTx) (m : MempoolInner F)
      → length q.slots ≤ most
      → IsBounded most m
      → IsBounded most (clear_slot k q o m)
  unfolding clear_slot
  clear_slot-IsBounded k q none m s w = w
  clear_slot-IsBounded k q (some tx) m s w = (
    w.0,
    put-AllWithin most k.addr _ m.account_queues (omega (arith, length-set q.slots _ none, s)) w.1,
  )

  evict-IsBounded :
      (k : Key) (rest : Keys) (m : MempoolInner F)
      → IsBounded most m
      → IsBounded most (evict k rest m)
  unfolding evict
  evict-IsBounded k rest m w = elim (Option-cases (lookup k.addr m.account_queues)) [
    | inl e ↦ rw (e, evict) w
    | inr (q, e) ↦
        rw (e, evict)
          (clear_slot-IsBounded k q _ (record m { priority_queue = rest })
            (lookup-Within most k.addr m.account_queues q w.1 e) w)
  ]

  evict_first-IsBounded :
      (tx : PendingTx) (ks : Keys) (m m' : MempoolInner F)
      → IsBounded most m
      → evict_first tx ks m ≡ some m'
      → IsBounded most m'
  unfolding evict_first
  evict_first-IsBounded tx [] m m' w h = cc
  evict_first-IsBounded tx (k ∷ rest) m m' w h =
      elim (Bool-cases (leb (effective_priority_fee m.current_base_fee tx) k.fee)) [
        | inl low ↦ cc
        | inr high ↦ let same : evict k rest m ≡ m' = cc in rw (← same) (evict-IsBounded k rest m w)
      ]

  make_room-IsBounded :
      (tx : PendingTx) (m m' : MempoolInner F)
      → IsBounded most m
      → make_room tx m ≡ some m'
      → IsBounded most m'
  unfolding make_room
  make_room-IsBounded tx m m' w h =
      elim (Bool-cases (leb m.config.global_capacity (length m.base_fee_eligibility))) [
        | inl full ↦ evict_first-IsBounded tx m.priority_queue m m' w cc
        | inr room ↦ let same : m ≡ m' = cc in subst (λ n. IsBounded most n) same w
      ]

  fill_slot-IsBounded :
      (tx : PendingTx) (q : AccountQueue) (m : MempoolInner F)
      → length q.slots ≤ most
      → IsBounded most m
      → IsBounded most (fill_slot tx q m)
  unfolding fill_slot
  fill_slot-IsBounded tx q m s w =
      if_either (IsBounded most) (leb m.config.per_account_capacity (tx.nonce - q.confirmed_nonce))
        (λ _. (w.0, put-AllWithin most tx.sender q m.account_queues s w.1))
        (λ room.
          let below : tx.nonce - q.confirmed_nonce < most = ground arith in
          (
            w.0,
            put-AllWithin most tx.sender _ m.account_queues
                (length-filled most (tx.nonce - q.confirmed_nonce) q.slots (some tx) below s) w.1,
          ))

  place-IsBounded :
      (tx : PendingTx) (q : AccountQueue) (m : MempoolInner F)
      → length q.slots ≤ most
      → IsBounded most m
      → IsBounded most (place tx q m)
  unfolding place
  place-IsBounded tx q m s w = elim (Bool-cases (ltb tx.nonce q.confirmed_nonce)) [
    | inr up ↦ rw (up, place) (fill_slot-IsBounded tx q m s w)
    | inl down ↦
        elim (Bool-cases
          (ltb m.config.per_account_capacity (q.confirmed_nonce - tx.nonce + length q.slots))) [
            | inl over ↦
                rw (down, over, place) (w.0, put-AllWithin most tx.sender q m.account_queues s w.1)
            | inr fits ↦
                let gap : Option PendingTx = none in
                rw (down, fits, place)
                  (fill_slot-IsBounded tx _ m
                    (ground (
                      arith,
                      length-append (replicate (q.confirmed_nonce - tx.nonce) gap) q.slots,
                      length-replicate (q.confirmed_nonce - tx.nonce) gap,
                    ))
                    w)
          ]
  ]

  queue_of-Within :
      (tx : PendingTx) (m : MempoolInner F) → IsBounded most m → length (queue_of tx m).slots ≤ most
  unfolding queue_of
  queue_of-Within tx m w = elim (Option-cases (lookup tx.sender m.account_queues)) [
    | inl e ↦ rw (e, queue_of) (omega arith)
    | inr (q, e) ↦ rw (e, queue_of) (lookup-Within most tx.sender m.account_queues q w.1 e)
  ]

  pub insert-IsBounded :
      (tx : PendingTx) (m : MempoolInner F) → IsBounded most m → IsBounded most (insert tx m)
  unfolding insert
  insert-IsBounded tx m w = elim (Option-cases (make_room tx m)) [
    | inl e ↦ rw (e, insert) w
    | inr (m', e) ↦
        let w' = make_room-IsBounded tx m m' w e in
        rw (e, insert) (place-IsBounded tx (queue_of tx m') m' (queue_of-Within tx m' w') w')
  ]
