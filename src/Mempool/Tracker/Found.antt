-- ===== src/Mempool/Tracker/Found.antt =====
-- crates/mempooloracle/src/lib.rs: what a search by account and nonce finds in any state of the tracker.
use bulkmail.Prelude.{
  ◌≤◌, ℕ, ◌-◌, ◌≡◌, List, [], ◌∷◌, some, arith, leb, leb→le, Bool-cases, Option-cases, inl, inr,
}
use bulkmail.Mempool.Queues.{slot_at, AccountQueue, PendingTx, lookup}
use bulkmail.Mempool.Queues.Slotted.{Slotted-slot_at}
use bulkmail.Mempool.Queues.Placed.{lookup-Placed}
use bulkmail.Mempool.{MempoolInner, TrackerConfig}
use bulkmail.Mempool.Insert.Placed.{IsPlaced, insert-IsPlaced}
use bulkmail.Mempool.Block.{FloatOps}
use bulkmail.Mempool.Block.Kept.{apply_block-IsPlaced}
use bulkmail.Mempool.Query.{find_tx_by_addr_and_nonce}
use bulkmail.Mempool.Tracker.{
  MempoolEvent, pending_transaction, new_block, insert_all, from_channel, handle_event, run,
}

module _ {F : Type 0} where
  pub insert_all-IsPlaced :
      (txs : List PendingTx) (m : MempoolInner F) → IsPlaced m → IsPlaced (insert_all txs m)
  unfolding insert_all
  insert_all-IsPlaced [] m w = w
  insert_all-IsPlaced (tx ∷ txs) m w = insert_all-IsPlaced txs _ (insert-IsPlaced tx m w)

  -- Where a search finds a transaction.
  pub find_tx_by_addr_and_nonce-at :
      (m : MempoolInner F) (a n : ℕ) (tx : PendingTx)
      → find_tx_by_addr_and_nonce m a n ≡ some tx
      → (q : AccountQueue) × (lookup a m.account_queues ≡ some q)
        × (q.confirmed_nonce ≤ n)
        × (slot_at q.slots (n - q.confirmed_nonce) ≡ some tx)
  unfolding find_tx_by_addr_and_nonce
  find_tx_by_addr_and_nonce-at m a n tx h = elim (Option-cases (lookup a m.account_queues)) [
    | inl e ↦ cc
    | inr (q, e) ↦ elim (Bool-cases (leb q.confirmed_nonce n)) [
      | inr below ↦ cc
      | inl open_ ↦ (q, e, leb→le _ _ open_, cc)
    ]
  ]

  -- In a placed state a search finds only what it asks for.
  find_tx_by_addr_and_nonce_lem :
      (m : MempoolInner F) (a n : ℕ) (tx : PendingTx)
      → IsPlaced m
      → find_tx_by_addr_and_nonce m a n ≡ some tx
      → (tx.sender ≡ a) × (tx.nonce ≡ n)
  find_tx_by_addr_and_nonce_lem m a n tx w h =
      let (q, e, open_, at) = find_tx_by_addr_and_nonce-at m a n tx h in
      let (sender, nonce) =
        Slotted-slot_at a q.confirmed_nonce (n - q.confirmed_nonce) q.slots tx
          (lookup-Placed a m.account_queues q w e) at in
      (sender, omega (arith, nonce, open_))

module _ {F : Type 0} (ops : FloatOps F) where
  run-IsPlaced :
      (events : List MempoolEvent) (m : MempoolInner F) → IsPlaced m → IsPlaced (run ops events m)
  unfolding run handle_event
  run-IsPlaced [] m w = w
  run-IsPlaced (pending_transaction tx ∷ events) m w =
      run-IsPlaced events _ (insert-IsPlaced tx m w)
  run-IsPlaced (new_block block ∷ events) m w =
      run-IsPlaced events _ (apply_block-IsPlaced ops block m w)

  -- Every state of the tracker is placed.
  pub reached-IsPlaced :
      (initial_txs : List PendingTx) (config : TrackerConfig F) (events : List MempoolEvent)
      → IsPlaced (run ops events (from_channel initial_txs config))
  unfolding from_channel
  reached-IsPlaced initial_txs config events =
      run-IsPlaced events _ (insert_all-IsPlaced initial_txs _ (tt, tt))

  -- In every state that the tracker reaches, from any initial transactions and by any events,
  -- whatever queues were extended, evicted from, or moved past confirmed nonces: if a search by
  -- account and nonce finds a transaction, it is one of that account with that nonce.
  pub run-find_tx_by_addr_and_nonce :
      (initial_txs : List PendingTx) (config : TrackerConfig F) (events : List MempoolEvent)
      (a n : ℕ) (tx : PendingTx)
      → find_tx_by_addr_and_nonce (run ops events (from_channel initial_txs config)) a n ≡ some tx
      → (tx.sender ≡ a) × (tx.nonce ≡ n)
  run-find_tx_by_addr_and_nonce initial_txs config events a n tx h =
      find_tx_by_addr_and_nonce_lem (run ops events (from_channel initial_txs config)) a n tx
        (reached-IsPlaced initial_txs config events) h
