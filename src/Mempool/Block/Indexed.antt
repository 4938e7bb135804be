-- ===== src/Mempool/Block/Indexed.antt =====
-- crates/mempooloracle/src/lib.rs: `apply_block` keeps every tracked transaction in
-- `base_fee_eligibility`.
use bulkmail.Prelude.{
  ℕ, ◌-◌, ◌≡◌, refl, subst, List, [], ◌∷◌, Option, none, some, Bool, true, false, leb, ltb, set,
  All, if_either, Bool-cases, Option-cases, inl, inr,
}
use bulkmail.Mempool.Index.{Key, Keys, remove, same_key, descending}
use bulkmail.Mempool.Queues.{PendingTx, AccountQueue, Accounts, lookup, put, slot_at}
use bulkmail.Mempool.Queues.Slotted.{Slotted-slot_at}
use bulkmail.Mempool.Queues.Placed.{lookup-Placed}
use bulkmail.Mempool.Queues.Filled.{Filled, IsFilled, drop-Filled, lookup-IsFilled, put-IsFilled}
use bulkmail.Mempool.{MempoolInner, BlockUpdate, effective_priority_fee}
use bulkmail.Mempool.Insert.{eligibility_key, priority_key}
use bulkmail.Mempool.Insert.Placed.{IsPlaced}
use bulkmail.Mempool.Insert.Removed.{Tracked, cleared, put-removed}
use bulkmail.Mempool.Insert.Indexed.{IsSmall, IsIndexed, insert_key-IsSmall}
use bulkmail.Mempool.Block.{
  FloatOps, remove_tracked, remove_included, remove_all, advance_queue, advance, rank_slots,
  rank_accounts, apply_block,
}
use bulkmail.Mempool.Block.Kept.{remove_included-IsPlaced}

remove-IsSmall : (k : Key) (s : Keys) → All IsSmall s → All IsSmall (remove k s)
unfolding remove
remove-IsSmall k [] a = tt
remove-IsSmall k (x ∷ s) a =
    if_either (All IsSmall) (same_key k x) (λ _. a.1) (λ _. (a.0, remove-IsSmall k s a.1))

module _ {F : Type 0} where
  remove_tracked-IsIndexed :
      (tx : PendingTx) (q : AccountQueue) (o : Option PendingTx) (m : MempoolInner F)
      → lookup tx.sender m.account_queues ≡ some q
      → slot_at q.slots (tx.nonce - q.confirmed_nonce) ≡ o
      → IsPlaced m
      → IsIndexed m
      → IsIndexed (remove_tracked tx q o m)
  unfolding remove_tracked
  remove_tracked-IsIndexed tx q none m found at p w = w
  remove_tracked-IsIndexed tx q (some old) m found at p w =
      let i = tx.nonce - q.confirmed_nonce in
      let k = eligibility_key old in
      let s = lookup-Placed tx.sender m.account_queues q p found in
      let f =
        lookup-IsFilled (Tracked m.base_fee_eligibility) tx.sender m.account_queues q w.0 found in
      let (own, placed) = Slotted-slot_at tx.sender q.confirmed_nonce i q.slots old s at in
      let g =
        cleared m.base_fee_eligibility k tx.sender q.confirmed_nonce i q.slots (inl placed) s f in
      let r =
        put-removed m.base_fee_eligibility k (record q { slots = set q.slots i none })
          m.account_queues g p w.0 in
      (
        subst
            (λ a.
              All (IsFilled (Tracked (remove k m.base_fee_eligibility)))
                (put a (record q { slots = set q.slots i none }) m.account_queues))
            own r,
        remove-IsSmall (priority_key m.current_base_fee old) m.priority_queue w.1,
      )

  remove_included-IsIndexed :
      (tx : PendingTx) (m : MempoolInner F)
      → IsPlaced m
      → IsIndexed m
      → IsIndexed (remove_included tx m)
  unfolding remove_included
  remove_included-IsIndexed tx m p w = elim (Option-cases (lookup tx.sender m.account_queues)) [
    | inl e ↦ rw (e, remove_included) w
    | inr (q, e) ↦ elim (Bool-cases (leb q.confirmed_nonce tx.nonce)) [
      | inr past ↦ rw (e, past, remove_included) w
      | inl open_ ↦
          rw (e, open_, remove_included)
            (remove_tracked-IsIndexed tx q (slot_at q.slots (tx.nonce - q.confirmed_nonce)) m e refl
              p w)
    ]
  ]

  remove_all-IsIndexed :
      (txs : List PendingTx) (m : MempoolInner F)
      → IsPlaced m
      → IsIndexed m
      → IsIndexed (remove_all txs m)
  unfolding remove_all
  remove_all-IsIndexed [] m p w = w
  remove_all-IsIndexed (tx ∷ txs) m p w =
      remove_all-IsIndexed txs (remove_included tx m) (remove_included-IsPlaced tx m p)
        (remove_included-IsIndexed tx m p w)

advance-IsFilled :
    (P : PendingTx → Type 0) (txs : List PendingTx) (accounts : Accounts)
    → All (IsFilled P) accounts
    → All (IsFilled P) (advance txs accounts)
unfolding advance advance_queue
advance-IsFilled P [] accounts w = w
advance-IsFilled P (tx ∷ txs) accounts w = elim (Option-cases (lookup tx.sender accounts)) [
  | inl e ↦ rw (e, advance) (advance-IsFilled P txs accounts w)
  | inr (q, e) ↦
      rw (e, advance)
        (advance-IsFilled P txs (put tx.sender (advance_queue tx.nonce q) accounts) (
          put-IsFilled P tx.sender (advance_queue tx.nonce q) accounts
            (drop-Filled P _ q.slots (lookup-IsFilled P tx.sender accounts q w e)) w))
]

rank_slots-IsSmall :
    (keys : Keys) (base : ℕ) (bound : Bool) (slots : List (Option PendingTx)) (ranked : Keys)
    → Filled (Tracked keys) slots
    → All IsSmall ranked
    → All IsSmall (rank_slots base bound slots ranked)
unfolding rank_slots
rank_slots-IsSmall keys base bound [] ranked f a = a
rank_slots-IsSmall keys base bound (none ∷ slots) ranked f a =
    rank_slots-IsSmall keys base true slots ranked f a
rank_slots-IsSmall keys base true (some tx ∷ slots) ranked f a =
    rank_slots-IsSmall keys base true slots ranked f.1 a
rank_slots-IsSmall keys base false (some tx ∷ slots) ranked f a =
    let blocked = rank_slots-IsSmall keys base true slots ranked f.1 a in
    if_either (All IsSmall) (ltb tx.max_fee_per_gas base) (λ _. blocked)
      (λ _.
        if_either (All IsSmall) (ltb 0 (effective_priority_fee base tx))
          (λ _.
            rank_slots-IsSmall keys base false slots _ f.1
              (insert_key-IsSmall descending (priority_key base tx) ranked f.0.1 a))
          (λ _. blocked))

rank_accounts-IsSmall :
    (keys : Keys) (base : ℕ) (accounts : Accounts) (ranked : Keys)
    → All (IsFilled (Tracked keys)) accounts
    → All IsSmall ranked
    → All IsSmall (rank_accounts base accounts ranked)
unfolding rank_accounts
rank_accounts-IsSmall keys base [] ranked f a = a
rank_accounts-IsSmall keys base ((b, q) ∷ accounts) ranked f a =
    rank_accounts-IsSmall keys base accounts _ f.1
      (rank_slots-IsSmall keys base false q.slots ranked f.0 a)

module _ {F : Type 0} (ops : FloatOps F) where
  pub apply_block-IsIndexed :
      (block : BlockUpdate) (m : MempoolInner F)
      → IsPlaced m
      → IsIndexed m
      → IsIndexed (apply_block ops block m)
  unfolding apply_block
  apply_block-IsIndexed block m p w =
      let removed = remove_all block.included_txs m in
      let r = remove_all-IsIndexed block.included_txs m p w in
      let f =
        advance-IsFilled (Tracked removed.base_fee_eligibility) block.included_txs
          removed.account_queues r.0 in
      (
        f,
        rank_accounts-IsSmall removed.base_fee_eligibility block.new_base_fee
            (advance block.included_txs removed.account_queues) [] f tt,
      )
