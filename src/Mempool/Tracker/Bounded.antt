-- ===== src/Mempool/Tracker/Bounded.antt =====
-- crates/mempooloracle/src/lib.rs: the capacity of account queues in every state of the tracker.
use bulkmail.Prelude.{ℕ, ◌≤◌, ◌≡◌, refl, List, [], ◌∷◌, some, length}
use bulkmail.Mempool.Queues.{PendingTx, AccountQueue, lookup}
use bulkmail.Mempool.Queues.Bounded.{lookup-Within}
use bulkmail.Mempool.{MempoolInner, TrackerConfig}
use bulkmail.Mempool.Insert.Bounded.{IsBounded, insert-IsBounded}
use bulkmail.Mempool.Block.{FloatOps}
use bulkmail.Mempool.Block.Bounded.{apply_block-IsBounded}
use bulkmail.Mempool.Tracker.{
  MempoolEvent, pending_transaction, new_block, insert_all, from_channel, handle_event, run,
}

module _ {F : Type 0} (ops : FloatOps F) (most : ℕ) where
  insert_all-IsBounded :
      (txs : List PendingTx) (m : MempoolInner F)
      → IsBounded most m
      → IsBounded most (insert_all txs m)
  unfolding insert_all
  insert_all-IsBounded [] m w = w
  insert_all-IsBounded (tx ∷ txs) m w = insert_all-IsBounded txs _ (insert-IsBounded most tx m w)

  run-IsBounded :
      (events : List MempoolEvent) (m : MempoolInner F)
      → IsBounded most m
      → IsBounded most (run ops events m)
  unfolding run handle_event
  run-IsBounded [] m w = w
  run-IsBounded (pending_transaction tx ∷ events) m w =
      run-IsBounded events _ (insert-IsBounded most tx m w)
  run-IsBounded (new_block block ∷ events) m w =
      run-IsBounded events _ (apply_block-IsBounded ops most block m w)

module _ {F : Type 0} (ops : FloatOps F) where
  reached-IsBounded :
      (initial_txs : List PendingTx) (config : TrackerConfig F) (events : List MempoolEvent)
      → IsBounded config.per_account_capacity (run ops events (from_channel initial_txs config))
  unfolding from_channel
  reached-IsBounded initial_txs config events =
      run-IsBounded ops config.per_account_capacity events _
        (insert_all-IsBounded ops config.per_account_capacity initial_txs _ (refl, tt))

  -- In every state that the tracker reaches, from any initial transactions and by any events,
  -- whatever nonces they have: the queue of an account has at most as many slots as the capacity of
  -- an account in the tracker's configuration.
  pub run-per_account_capacity :
      (initial_txs : List PendingTx) (config : TrackerConfig F) (events : List MempoolEvent) (a : ℕ)
      (q : AccountQueue)
      → lookup a (run ops events (from_channel initial_txs config)).account_queues ≡ some q
      → length q.slots ≤ config.per_account_capacity
  run-per_account_capacity initial_txs config events a q found =
      lookup-Within config.per_account_capacity a
        (run ops events (from_channel initial_txs config)).account_queues q
        (reached-IsBounded initial_txs config events).1 found
