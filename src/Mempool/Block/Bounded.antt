-- ===== src/Mempool/Block/Bounded.antt =====
-- crates/mempooloracle/src/lib.rs: `apply_block` keeps every account queue within its capacity.
use bulkmail.Prelude.{
  ℕ, ◌-◌, ◌≤◌, List, [], ◌∷◌, Option, none, some, arith, leb, max, length, add_u64, Bool-cases,
  Option-cases, inl, inr, length-set, length-drop,
}
use bulkmail.Mempool.Queues.{PendingTx, AccountQueue, Accounts, lookup}
use bulkmail.Mempool.Queues.Bounded.{AllWithin, lookup-Within, put-AllWithin}
use bulkmail.Mempool.{MempoolInner, BlockUpdate}
use bulkmail.Mempool.Insert.Bounded.{IsBounded}
use bulkmail.Mempool.Block.{
  FloatOps, remove_tracked, remove_included, remove_all, advance_queue, advance, apply_block,
}

module _ {F : Type 0} (most : ℕ) where
  remove_tracked-IsBounded :
      (tx : PendingTx) (q : AccountQueue) (o : Option PendingTx) (m : MempoolInner F)
      → length q.slots ≤ most
      → IsBounded most m
      → IsBounded most (remove_tracked tx q o m)
  unfolding remove_tracked
  remove_tracked-IsBounded tx q none m s w = w
  remove_tracked-IsBounded tx q (some old) m s w = (
    w.0,
    put-AllWithin most tx.sender _ m.account_queues
        (omega (arith, length-set q.slots (tx.nonce - q.confirmed_nonce) none, s)) w.1,
  )

  remove_included-IsBounded :
      (tx : PendingTx) (m : MempoolInner F)
      → IsBounded most m
      → IsBounded most (remove_included tx m)
  unfolding remove_included
  remove_included-IsBounded tx m w = elim (Option-cases (lookup tx.sender m.account_queues)) [
    | inl e ↦ rw (e, remove_included) w
    | inr (q, e) ↦ elim (Bool-cases (leb q.confirmed_nonce tx.nonce)) [
      | inr past ↦ rw (e, past, remove_included) w
      | inl open_ ↦
          rw (e, open_, remove_included)
            (remove_tracked-IsBounded tx q _ m
              (lookup-Within most tx.sender m.account_queues q w.1 e) w)
    ]
  ]

  remove_all-IsBounded :
      (txs : List PendingTx) (m : MempoolInner F)
      → IsBounded most m
      → IsBounded most (remove_all txs m)
  unfolding remove_all
  remove_all-IsBounded [] m w = w
  remove_all-IsBounded (tx ∷ txs) m w =
      remove_all-IsBounded txs _ (remove_included-IsBounded tx m w)

advance_queue-shorter :
    (nonce : ℕ) (q : AccountQueue) → length (advance_queue nonce q).slots ≤ length q.slots
unfolding advance_queue
advance_queue-shorter nonce q =
    omega (arith, length-drop (max q.confirmed_nonce (add_u64 nonce 1) - q.confirmed_nonce) q.slots)

advance-AllWithin :
    (most : ℕ) (txs : List PendingTx) (accounts : Accounts)
    → AllWithin most accounts
    → AllWithin most (advance txs accounts)
unfolding advance
advance-AllWithin most [] accounts w = w
advance-AllWithin most (tx ∷ txs) accounts w = elim (Option-cases (lookup tx.sender accounts)) [
  | inl e ↦ rw (e, advance) (advance-AllWithin most txs accounts w)
  | inr (q, e) ↦
      let shorter = advance_queue-shorter tx.nonce q in
      let within = lookup-Within most tx.sender accounts q w e in
      rw (e, advance)
        (advance-AllWithin most txs _ (
          put-AllWithin most tx.sender (advance_queue tx.nonce q) accounts
            (omega (arith, shorter, within)) w))
]

module _ {F : Type 0} (ops : FloatOps F) where
  pub apply_block-IsBounded :
      (most : ℕ) (block : BlockUpdate) (m : MempoolInner F)
      → IsBounded most m
      → IsBounded most (apply_block ops block m)
  unfolding apply_block
  apply_block-IsBounded most block m w = (
    w.0,
    advance-AllWithin most block.included_txs _
        (remove_all-IsBounded most block.included_txs m w).1,
  )
