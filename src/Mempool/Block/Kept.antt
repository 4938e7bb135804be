-- ===== src/Mempool/Block/Kept.antt =====
-- crates/mempooloracle/src/lib.rs: `apply_block` keeps every transaction at the place of its nonce.
use bulkmail.Prelude.{
  ℕ, ◌-◌, subst, List, [], ◌∷◌, Option, none, some, arith, leb, max, drop, add_u64, Bool-cases,
  Option-cases, inl, inr,
}
use bulkmail.Mempool.Queues.{PendingTx, AccountQueue, Accounts, lookup}
use bulkmail.Mempool.Queues.Slotted.{Slotted, IsSlotted, set-none-Slotted, drop-Slotted}
use bulkmail.Mempool.Queues.Placed.{Placed, lookup-Placed, put-Placed}
use bulkmail.Mempool.{MempoolInner, BlockUpdate}
use bulkmail.Mempool.Insert.Placed.{IsPlaced}
use bulkmail.Mempool.Block.{
  FloatOps, remove_tracked, remove_included, remove_all, advance_queue, advance, apply_block,
}

module _ {F : Type 0} where
  remove_tracked-IsPlaced :
      (tx : PendingTx) (q : AccountQueue) (o : Option PendingTx) (m : MempoolInner F)
      → IsSlotted (tx.sender, q)
      → IsPlaced m
      → IsPlaced (remove_tracked tx q o m)
  unfolding remove_tracked
  remove_tracked-IsPlaced tx q none m s w = w
  remove_tracked-IsPlaced tx q (some old) m s w =
      put-Placed tx.sender _ m.account_queues
        (set-none-Slotted tx.sender q.confirmed_nonce _ q.slots s) w

  pub remove_included-IsPlaced :
      (tx : PendingTx) (m : MempoolInner F) → IsPlaced m → IsPlaced (remove_included tx m)
  unfolding remove_included
  remove_included-IsPlaced tx m w = elim (Option-cases (lookup tx.sender m.account_queues)) [
    | inl e ↦ rw (e, remove_included) w
    | inr (q, e) ↦ elim (Bool-cases (leb q.confirmed_nonce tx.nonce)) [
      | inr past ↦ rw (e, past, remove_included) w
      | inl open_ ↦
          rw (e, open_, remove_included)
            (remove_tracked-IsPlaced tx q _ m (lookup-Placed tx.sender m.account_queues q w e) w)
    ]
  ]

  remove_all-IsPlaced :
      (txs : List PendingTx) (m : MempoolInner F) → IsPlaced m → IsPlaced (remove_all txs m)
  unfolding remove_all
  remove_all-IsPlaced [] m w = w
  remove_all-IsPlaced (tx ∷ txs) m w = remove_all-IsPlaced txs _ (remove_included-IsPlaced tx m w)

advance_queue-IsSlotted :
    (a nonce : ℕ) (q : AccountQueue) → IsSlotted (a, q) → IsSlotted (a, advance_queue nonce q)
unfolding advance_queue
advance_queue-IsSlotted a nonce q s =
    let confirmed = max q.confirmed_nonce (add_u64 nonce 1) in
    subst (λ k. Slotted a k (drop (confirmed - q.confirmed_nonce) q.slots)) (omega arith)
      (drop-Slotted a q.confirmed_nonce (confirmed - q.confirmed_nonce) q.slots s)

advance-Placed :
    (txs : List PendingTx) (accounts : Accounts) → Placed accounts → Placed (advance txs accounts)
unfolding advance
advance-Placed [] accounts w = w
advance-Placed (tx ∷ txs) accounts w = elim (Option-cases (lookup tx.sender accounts)) [
  | inl e ↦ rw (e, advance) (advance-Placed txs accounts w)
  | inr (q, e) ↦
      rw (e, advance)
        (advance-Placed txs _ (
          put-Placed tx.sender (advance_queue tx.nonce q) accounts
            (advance_queue-IsSlotted tx.sender tx.nonce q (lookup-Placed tx.sender accounts q w e))
            w))
]

module _ {F : Type 0} (ops : FloatOps F) where
  pub apply_block-IsPlaced :
      (block : BlockUpdate) (m : MempoolInner F) → IsPlaced m → IsPlaced (apply_block ops block m)
  unfolding apply_block
  apply_block-IsPlaced block m w =
      advance-Placed block.included_txs _ (remove_all-IsPlaced block.included_txs m w)
