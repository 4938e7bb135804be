-- ===== src/Mempool/Insert.antt =====
-- crates/mempooloracle/src/lib.rs: `MempoolInner::insert`.
pub mod Bounded
pub mod Evicted
pub mod Eviction
pub mod Indexed
pub mod Placed
pub mod Removed
pub mod Stored
use bulkmail.Prelude.{
  ℕ, suc, ◌+◌, ◌-◌, List, [], ◌∷◌, ◌++◌, Option, none, some, leb, ltb, if◌then◌else◌, length,
  replicate, set, sub_u64,
}
use bulkmail.Mempool.Index.{Key, Keys, insert as insert_key, remove, ascending, descending}
use bulkmail.Mempool.Queues.{PendingTx, AccountQueue, lookup, put, slot_at}
use bulkmail.Mempool.{MempoolInner, effective_priority_fee}

abbrev pub eligibility_key : PendingTx → Key
eligibility_key tx = record { fee = tx.max_fee_per_gas; addr = tx.sender; nonce = tx.nonce }

abbrev pub priority_key : ℕ → PendingTx → Key
priority_key base_fee tx = record {
  fee = effective_priority_fee base_fee tx;
  addr = tx.sender;
  nonce = tx.nonce;
}

-- `slots.resize(n, None)` to a greater length.
abbrev pub resize : List (Option PendingTx) → ℕ → List (Option PendingTx)
resize slots n = slots ++ replicate (n - length slots) none

module _ {F : Type 0} where
  -- The transaction in the slot of an evicted key, taken out of its slot and of the first index.
  unfoldable pub clear_slot :
      Key → AccountQueue → Option PendingTx → MempoolInner F → MempoolInner F
  clear_slot k q none m = m
  clear_slot k q (some tx) m = record m {
    account_queues =
        put k.addr (record q { slots = set q.slots (sub_u64 k.nonce q.confirmed_nonce) none })
          m.account_queues;
    base_fee_eligibility =
        remove (record { fee = tx.max_fee_per_gas; addr = k.addr; nonce = k.nonce })
          m.base_fee_eligibility;
  }

  unfoldable pub evict : Key → Keys → MempoolInner F → MempoolInner F
  unfolding clear_slot
  evict k rest m =
      let m' = record m { priority_queue = rest } in
      elim (lookup k.addr m.account_queues) [
        | none ↦ m'
        | some q ↦ clear_slot k q (slot_at q.slots (sub_u64 k.nonce q.confirmed_nonce)) m'
      ]

  -- A full index: the first key gives way, unless its fee is as high; `none` where `insert` returns
  -- without a change.
  unfoldable pub evict_first : PendingTx → Keys → MempoolInner F → Option (MempoolInner F)
  unfolding evict
  evict_first tx [] m = none
  evict_first tx (k ∷ rest) m =
      if leb (effective_priority_fee m.current_base_fee tx) k.fee
      then none
      else some (evict k rest m)

  -- The capacity check.
  unfoldable pub make_room : PendingTx → MempoolInner F → Option (MempoolInner F)
  unfolding evict_first
  make_room tx m =
      if leb m.config.global_capacity (length m.base_fee_eligibility)
      then evict_first tx m.priority_queue m
      else some m

  -- The last part of `insert`, at a queue that starts at or below the nonce.
  unfoldable pub fill_slot : PendingTx → AccountQueue → MempoolInner F → MempoolInner F
  fill_slot tx q m =
      let i = tx.nonce - q.confirmed_nonce in
      let slots : List (Option PendingTx) =
        if leb (length q.slots) i then resize q.slots (i + 1) else q.slots in
      if leb m.config.per_account_capacity i
      then record m { account_queues = put tx.sender q m.account_queues }
      else record m {
        account_queues =
            put tx.sender (record q { slots = set slots i (some tx) }) m.account_queues;
        base_fee_eligibility = insert_key ascending (eligibility_key tx) m.base_fee_eligibility;
        priority_queue =
            insert_key descending (priority_key m.current_base_fee tx) m.priority_queue;
      }

  -- A queue that starts above the nonce is first extended downwards, if there is room.
  unfoldable pub place : PendingTx → AccountQueue → MempoolInner F → MempoolInner F
  unfolding fill_slot
  place tx q m =
      let prepend = q.confirmed_nonce - tx.nonce in
      if ltb tx.nonce q.confirmed_nonce
      then (if ltb m.config.per_account_capacity (prepend + length q.slots)
          then record m { account_queues = put tx.sender q m.account_queues }
          else fill_slot tx
              (record { confirmed_nonce = tx.nonce; slots = replicate prepend none ++ q.slots }) m)
      else fill_slot tx q m

  -- The queue of the sender, got or created.
  unfoldable pub queue_of : PendingTx → MempoolInner F → AccountQueue
  queue_of tx m = elim (lookup tx.sender m.account_queues) [
    | none ↦ record { confirmed_nonce = tx.nonce; slots = [] }
    | some q ↦ q
  ]

  unfoldable pub insert : PendingTx → MempoolInner F → MempoolInner F
  unfolding make_room place queue_of
  insert tx m = elim (make_room tx m) [ none ↦ m | some m' ↦ place tx (queue_of tx m') m' ]
