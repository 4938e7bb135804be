-- ===== src/Mempool/Tracker/Indexed.antt =====
-- crates/mempooloracle/src/lib.rs: `base_fee_eligibility` in every state of the tracker.
use bulkmail.Prelude.{ℕ, ◌-◌, ◌<◌, ◌≡◌, true, List, [], ◌∷◌, some, All, u64_mod}
use bulkmail.Mempool.Index.{contains}
use bulkmail.Mempool.Queues.{PendingTx}
use bulkmail.Mempool.Queues.Filled.{Filled-slot_at, lookup-IsFilled}
use bulkmail.Mempool.{MempoolInner, TrackerConfig}
use bulkmail.Mempool.Insert.{eligibility_key, insert}
use bulkmail.Mempool.Insert.Placed.{IsPlaced, insert-IsPlaced}
use bulkmail.Mempool.Insert.Removed.{Tracked}
use bulkmail.Mempool.Insert.Indexed.{IsIndexed, insert-IsIndexed}
use bulkmail.Mempool.Block.{FloatOps, apply_block}
use bulkmail.Mempool.Block.Kept.{apply_block-IsPlaced}
use bulkmail.Mempool.Block.Indexed.{apply_block-IsIndexed}
use bulkmail.Mempool.Query.{find_tx_by_addr_and_nonce}
use bulkmail.Mempool.Tracker.{
  MempoolEvent, pending_transaction, new_block, insert_all, empty_inner, from_channel, handle_event,
  run,
}
use bulkmail.Mempool.Tracker.Found.{find_tx_by_addr_and_nonce-at, insert_all-IsPlaced}

-- A nonce of 64 bits, as the code has it.
abbrev pub Small : PendingTx → Type 0
Small tx = tx.nonce < u64_mod

abbrev pub SmallEvent : MempoolEvent → Type 0
SmallEvent (pending_transaction tx) = Small tx
SmallEvent (new_block block) = Unit {0}

module _ {F : Type 0} where
  insert_all-IsIndexed :
      (txs : List PendingTx) (m : MempoolInner F)
      → All Small txs
      → IsPlaced m
      → IsIndexed m
      → IsIndexed (insert_all txs m)
  unfolding insert_all
  insert_all-IsIndexed [] m small p w = w
  insert_all-IsIndexed (tx ∷ txs) m small p w =
      insert_all-IsIndexed txs (insert tx m) small.1 (insert-IsPlaced tx m p)
        (insert-IsIndexed tx m small.0 p w)

module _ {F : Type 0} (ops : FloatOps F) where
  run-IsIndexed :
      (events : List MempoolEvent) (m : MempoolInner F)
      → All SmallEvent events
      → IsPlaced m
      → IsIndexed m
      → IsIndexed (run ops events m)
  unfolding run handle_event
  run-IsIndexed [] m small p w = w
  run-IsIndexed (pending_transaction tx ∷ events) m small p w =
      run-IsIndexed events (insert tx m) small.1 (insert-IsPlaced tx m p)
        (insert-IsIndexed tx m small.0 p w)
  run-IsIndexed (new_block block ∷ events) m small p w =
      run-IsIndexed events (apply_block ops block m) small.1 (apply_block-IsPlaced ops block m p)
        (apply_block-IsIndexed ops block m p w)

  -- Every state of the tracker is indexed, where all nonces are of 64 bits.
  pub reached-IsIndexed :
      (initial_txs : List PendingTx) (config : TrackerConfig F) (events : List MempoolEvent)
      → All Small initial_txs
      → All SmallEvent events
      → IsIndexed (run ops events (from_channel initial_txs config))
  unfolding from_channel
  reached-IsIndexed initial_txs config events smalls small =
      let m₀ = insert_all initial_txs (empty_inner config) in
      let p = insert_all-IsPlaced initial_txs (empty_inner config) (tt, tt) in
      let i = insert_all-IsIndexed initial_txs (empty_inner config) smalls (tt, tt) (tt, tt) in
      run-IsIndexed events m₀ small p i

  -- In every state that the tracker reaches, from any initial transactions and by any events, all with
  -- 64-bit nonces: a transaction that a search by account and nonce finds has its key in
  -- `base_fee_eligibility`, whatever was evicted, replaced, confirmed or passed over.
  pub run-base_fee_eligibility :
      (initial_txs : List PendingTx) (config : TrackerConfig F) (events : List MempoolEvent)
      (a n : ℕ) (tx : PendingTx)
      → All Small initial_txs
      → All SmallEvent events
      → let m = run ops events (from_channel initial_txs config) in
        find_tx_by_addr_and_nonce m a n ≡ some tx
        → contains (eligibility_key tx) m.base_fee_eligibility ≡ true
  run-base_fee_eligibility initial_txs config events a n tx smalls small h =
      let m = run ops events (from_channel initial_txs config) in
      let w = reached-IsIndexed initial_txs config events smalls small in
      let (q, found, open_, at) = find_tx_by_addr_and_nonce-at m a n tx h in
      (Filled-slot_at (Tracked m.base_fee_eligibility) (n - q.confirmed_nonce) q.slots tx
        (lookup-IsFilled (Tracked m.base_fee_eligibility) a m.account_queues q w.0 found) at).0
