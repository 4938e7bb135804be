-- ===== src/Mempool/Insert/Stored.antt =====
-- crates/mempooloracle/src/lib.rs: a transaction that `insert` accepts is found again.
use bulkmail.Prelude.{
  ℕ, zero, suc, ◌+◌, ◌-◌, ◌≤◌, ◌<◌, ◌≡◌, ◌⊎◌, refl, ap, lt→leb, leb→lt, ◌∙◌, List, [], ◌∷◌, Option,
  none, some, arith, length, length-append, replicate, set, leb, ltb, if◌then◌else◌, Bool-cases,
  inl, inr, false, lt→ltb, le→leb,
}
use bulkmail.Mempool.Queues.{PendingTx, AccountQueue, lookup, put, lookup-put_same, slot_at}
use bulkmail.Mempool.{MempoolInner}
use bulkmail.Mempool.Insert.{resize, make_room, fill_slot, place, queue_of, insert}
use bulkmail.Mempool.Insert.Eviction.{insert_placed}
use bulkmail.Mempool.Query.{find_tx_by_addr_and_nonce}

slot_at-set :
    (i : ℕ) (slots : List (Option PendingTx)) (tx : PendingTx)
    → i < length slots
    → slot_at (set slots i (some tx)) i ≡ some tx
unfolding slot_at
slot_at-set i [] tx h = absurd (omega arith)
slot_at-set zero (o ∷ slots) tx h = refl
slot_at-set (suc i) (o ∷ slots) tx h = slot_at-set i slots tx (omega arith)

length-replicate : (n : ℕ) (o : Option PendingTx) → length (replicate n o) ≡ n
length-replicate zero o = refl
length-replicate (suc n) o = omega (arith, length-replicate n o)

-- The sender's queue, as it is or extended downwards, has room for the nonce.
abbrev pub Fits : {F : Type 0} → PendingTx → AccountQueue → MempoolInner F → Type 0
Fits tx q m =
    ((q.confirmed_nonce ≤ tx.nonce)
      × (tx.nonce - q.confirmed_nonce < m.config.per_account_capacity))
    ⊎ ((tx.nonce < q.confirmed_nonce)
        × (q.confirmed_nonce - tx.nonce + length q.slots ≤ m.config.per_account_capacity))

-- The queue that `fill_slot` writes.
abbrev filled : PendingTx → AccountQueue → AccountQueue
filled tx q =
    let i = tx.nonce - q.confirmed_nonce in
    let slots : List (Option PendingTx) =
      if leb (length q.slots) i then resize q.slots (i + 1) else q.slots in
    record q { slots = set slots i (some tx) }

filled-slot_at :
    (tx : PendingTx) (q : AccountQueue)
    → slot_at (filled tx q).slots (tx.nonce - q.confirmed_nonce) ≡ some tx
filled-slot_at tx q =
    let i = tx.nonce - q.confirmed_nonce in
    elim (Bool-cases (leb (length q.slots) i)) [
      | inl beyond ↦ rw beyond (
          slot_at-set i (resize q.slots (i + 1)) tx (
            omega (
              arith,
              length-append q.slots (replicate (i + 1 - length q.slots) none),
              length-replicate (i + 1 - length q.slots) none,
            )))
      | inr within ↦ rw within (slot_at-set i q.slots tx (leb→lt (length q.slots) i within))
    ]

module _ {F : Type 0} where
  find-lookup :
      (m : MempoolInner F) (tx : PendingTx) (q : AccountQueue)
      → lookup tx.sender m.account_queues ≡ some q
      → q.confirmed_nonce ≤ tx.nonce
      → slot_at q.slots (tx.nonce - q.confirmed_nonce) ≡ some tx
      → find_tx_by_addr_and_nonce m tx.sender tx.nonce ≡ some tx
  unfolding find_tx_by_addr_and_nonce
  find-lookup m tx q found h s =
      rw (found, le→leb q.confirmed_nonce tx.nonce h, find_tx_by_addr_and_nonce) s

  fill_slot-accounts :
      (tx : PendingTx) (q : AccountQueue) (m : MempoolInner F)
      → tx.nonce - q.confirmed_nonce < m.config.per_account_capacity
      → (fill_slot tx q m).account_queues ≡ put tx.sender (filled tx q) m.account_queues
  unfolding fill_slot
  fill_slot-accounts tx q m c =
      rw (lt→leb m.config.per_account_capacity (tx.nonce - q.confirmed_nonce) c, fill_slot) refl

  fill_slot-find :
      (tx : PendingTx) (q : AccountQueue) (m : MempoolInner F)
      → q.confirmed_nonce ≤ tx.nonce
      → tx.nonce - q.confirmed_nonce < m.config.per_account_capacity
      → find_tx_by_addr_and_nonce (fill_slot tx q m) tx.sender tx.nonce ≡ some tx
  fill_slot-find tx q m h c =
      find-lookup (fill_slot tx q m) tx (filled tx q)
        (ap (lookup tx.sender) (fill_slot-accounts tx q m c)
          ∙ lookup-put_same tx.sender (filled tx q) m.account_queues)
        h (filled-slot_at tx q)

  place-find :
      (tx : PendingTx) (q : AccountQueue) (m : MempoolInner F)
      → Fits tx q m
      → find_tx_by_addr_and_nonce (place tx q m) tx.sender tx.nonce ≡ some tx
  unfolding place
  place-find tx q m (inl (h, c)) =
      let up : ltb tx.nonce q.confirmed_nonce ≡ false = ground arith in
      rw (up, place) (fill_slot-find tx q m h c)
  place-find tx q m (inr (h, c)) =
      let over : ltb m.config.per_account_capacity (q.confirmed_nonce - tx.nonce + length q.slots)
          ≡ false =
        ground arith in
      rw (lt→ltb tx.nonce q.confirmed_nonce h, over, place)
        (fill_slot-find tx _ m (omega arith) (omega arith))

  -- Below the global capacity, a transaction for which its sender's queue has room, as it is or
  -- extended downwards to the nonce, is tracked after `insert`: the search by its account and nonce
  -- finds it.
  pub insert-find_tx_by_addr_and_nonce :
      (tx : PendingTx) (m : MempoolInner F)
      → length m.base_fee_eligibility < m.config.global_capacity
      → Fits tx (queue_of tx m) m
      → find_tx_by_addr_and_nonce (insert tx m) tx.sender tx.nonce ≡ some tx
  unfolding make_room
  insert-find_tx_by_addr_and_nonce tx m room fits =
      let free : make_room tx m ≡ some m =
        rw (lt→leb m.config.global_capacity (length m.base_fee_eligibility) room, make_room) refl in
      rw (insert_placed tx m m free) (place-find tx (queue_of tx m) m fits)
