-- ===== src/Mempool/Tracker/Evicted.antt =====
-- crates/mempooloracle/src/lib.rs: what an insertion at capacity evicts, in every state of the tracker.
use bulkmail.Prelude.{◌≤◌, List, length, All}
use bulkmail.Mempool.Queues.{PendingTx}
use bulkmail.Mempool.{TrackerConfig}
use bulkmail.Mempool.Insert.Eviction.{insert-Evicts}
use bulkmail.Mempool.Insert.Evicted.{MakesRoom, Evicts-MakesRoom}
use bulkmail.Mempool.Block.{FloatOps}
use bulkmail.Mempool.Tracker.{MempoolEvent, run, from_channel}
use bulkmail.Mempool.Tracker.Found.{reached-IsPlaced}
use bulkmail.Mempool.Tracker.Indexed.{Small, SmallEvent, reached-IsIndexed}
use bulkmail.Mempool.Tracker.Ordered.{reached-IsOrdered}

module _ {F : Type 0} (ops : FloatOps F) where
  -- In every state that the tracker reaches, from any initial transactions and by any events, all with
  -- 64-bit nonces, once the capacity is reached: with an empty priority queue nothing is inserted. Otherwise no
  -- key has a higher fee than the first one. Where the new transaction pays no more than the fee of that key,
  -- nothing changes. Where it pays more, the key is taken out of the queue, and of the transactions, as the
  -- search by account and nonce finds them, the one at that key's account and nonce is evicted, if there
  -- is one, and no other; the new one is then placed. What is evicted may pay less than the fee of the key:
  -- the key may be of a transaction that was replaced, or of one whose slot is empty by now.
  pub run-MakesRoom :
      (initial_txs : List PendingTx) (config : TrackerConfig F) (events : List MempoolEvent)
      (tx : PendingTx)
      → All Small initial_txs
      → All SmallEvent events
      → let m = run ops events (from_channel initial_txs config) in
        m.config.global_capacity ≤ length m.base_fee_eligibility → MakesRoom tx m m.priority_queue
  run-MakesRoom initial_txs config events tx smalls small full =
      let m = run ops events (from_channel initial_txs config) in
      let w = reached-IsIndexed ops initial_txs config events smalls small in
      Evicts-MakesRoom tx m m.priority_queue w.1 (reached-IsPlaced ops initial_txs config events) w
        (insert-Evicts tx m (reached-IsOrdered ops initial_txs config events) full)
