-- ===== src/Mempool/Tracker/Ordered.antt =====
-- crates/mempooloracle/src/lib.rs: the order of the priority queue in every state of the tracker.
use bulkmail.Prelude.{ℕ, List, [], ◌∷◌, false, Option, none, some, inl, inr}
use bulkmail.Mempool.Index.{Keys}
use bulkmail.Mempool.Index.Sorted.{Sorted, insert_key-Sorted}
use bulkmail.Mempool.Queues.{PendingTx, Accounts}
use bulkmail.Mempool.{MempoolInner, BlockUpdate, TrackerConfig}
use bulkmail.Mempool.Insert.{priority_key}
use bulkmail.Mempool.Insert.Eviction.{IsOrdered, insert-IsOrdered}
use bulkmail.Mempool.Block.{FloatOps, rank_slots, rank_accounts, apply_block}
use bulkmail.Mempool.Block.Ranked.{rank_slots_bound, rank_slots_open, class_cases}
use bulkmail.Mempool.Tracker.{
  MempoolEvent, pending_transaction, new_block, insert_all, from_channel, handle_event, run,
}

rank_slots-Sorted :
    (base : ℕ) (slots : List (Option PendingTx)) (ranked : Keys)
    → Sorted ranked
    → Sorted (rank_slots base false slots ranked)
unfolding rank_slots
rank_slots-Sorted base [] ranked d = d
rank_slots-Sorted base (none ∷ slots) ranked d = rw (rank_slots_bound base slots ranked) d
rank_slots-Sorted base (some tx ∷ slots) ranked d = elim (class_cases base tx) [
  | inr (skipped, _, _) ↦ rw (skipped slots ranked) d
  | inl (pays, tips, _, _) ↦
      rw (rank_slots_open base tx slots ranked pays tips)
        (rank_slots-Sorted base slots _ (insert_key-Sorted (priority_key base tx) ranked d))
]

rank_accounts-Sorted :
    (base : ℕ) (accounts : Accounts) (ranked : Keys)
    → Sorted ranked
    → Sorted (rank_accounts base accounts ranked)
unfolding rank_accounts
rank_accounts-Sorted base [] ranked d = d
rank_accounts-Sorted base ((a, q) ∷ accounts) ranked d =
    rank_accounts-Sorted base accounts _ (rank_slots-Sorted base q.slots ranked d)

module _ {F : Type 0} where
  insert_all-IsOrdered :
      (txs : List PendingTx) (m : MempoolInner F) → IsOrdered m → IsOrdered (insert_all txs m)
  unfolding insert_all
  insert_all-IsOrdered [] m d = d
  insert_all-IsOrdered (tx ∷ txs) m d = insert_all-IsOrdered txs _ (insert-IsOrdered tx m d)

module _ {F : Type 0} (ops : FloatOps F) where
  apply_block-IsOrdered :
      (block : BlockUpdate) (m : MempoolInner F) → IsOrdered (apply_block ops block m)
  unfolding apply_block
  apply_block-IsOrdered block m =
      rank_accounts-Sorted block.new_base_fee (apply_block ops block m).account_queues [] tt

  run-IsOrdered :
      (events : List MempoolEvent) (m : MempoolInner F) → IsOrdered m → IsOrdered (run ops events m)
  unfolding run handle_event
  run-IsOrdered [] m d = d
  run-IsOrdered (pending_transaction tx ∷ events) m d =
      run-IsOrdered events _ (insert-IsOrdered tx m d)
  run-IsOrdered (new_block block ∷ events) m d =
      run-IsOrdered events _ (apply_block-IsOrdered block m)

  -- Every state of the tracker is ordered.
  pub reached-IsOrdered :
      (initial_txs : List PendingTx) (config : TrackerConfig F) (events : List MempoolEvent)
      → IsOrdered (run ops events (from_channel initial_txs config))
  unfolding from_channel
  reached-IsOrdered initial_txs config events =
      run-IsOrdered events _ (insert_all-IsOrdered initial_txs _ tt)
