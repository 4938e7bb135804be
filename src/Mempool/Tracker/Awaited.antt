-- ===== src/Mempool/Tracker/Awaited.antt =====
-- crates/mempooloracle/src/lib.rs: how long a transaction waits, by its place in the priority queue.
use bulkmail.Prelude.{ℕ, ◌≡◌, ◌≤◌, ◌<◌, ap, List, some, true, arith, u64_mod}
use bulkmail.Mempool.Index.{contains, range_to, descending}
use bulkmail.Mempool.Index.Sorted.{Comes}
use bulkmail.Mempool.Queues.{PendingTx}
use bulkmail.Mempool.{TrackerConfig}
use bulkmail.Mempool.Insert.{priority_key}
use bulkmail.Mempool.Block.{FloatOps}
use bulkmail.Mempool.Query.{
  find_tx_by_addr_and_nonce, find_tx_by_id, classify_transaction, is_marketable_class,
  usable_capacity, estimated_blocks_to_confirm, marketable,
}
use bulkmail.Mempool.Query.Ahead.{
  key_gas_found, total, blocks, blocks_mono, key_gas, total-range_to_later,
  estimated_blocks_to_confirm-blocks,
}
use bulkmail.Mempool.Query.Located.{find_tx_by_id-find_tx_by_addr_and_nonce}
use bulkmail.Mempool.Tracker.{MempoolEvent, from_channel, run}
use bulkmail.Mempool.Tracker.Found.{reached-IsPlaced}
use bulkmail.Mempool.Tracker.Ordered.{reached-IsOrdered}

module _ {F : Type 0} (ops : FloatOps F) where
  -- In every state that the tracker reaches, from any initial transactions and by any events: if a
  -- search by identifier finds a transaction, it has that identifier, and the search by its account
  -- and nonce finds the same transaction.
  pub run-find_tx_by_id :
      (initial_txs : List PendingTx) (config : TrackerConfig F) (events : List MempoolEvent)
      (id : ℕ) (tx : PendingTx)
      → let m = run ops events (from_channel initial_txs config) in
        find_tx_by_id id m.account_queues ≡ some tx
        → (find_tx_by_addr_and_nonce m tx.sender tx.nonce ≡ some tx) × (tx.id ≡ id)
  run-find_tx_by_id initial_txs config events id tx found =
      find_tx_by_id-find_tx_by_addr_and_nonce (run ops events (from_channel initial_txs config)) id
        tx (reached-IsPlaced ops initial_txs config events) found

  -- In every state that the tracker reaches, from any initial transactions and by any events, where
  -- the gas of all transactions of the priority queue fits 64 bits: of two transactions found by their
  -- identifiers and both classified as marketable, the first of them in the priority queue and its
  -- key before that of the second, both have an estimate of the blocks to their confirmation, and
  -- that of the first is at most that of the second, whatever the capacity and the gas of both.
  pub run-estimated_blocks_to_confirm :
      (initial_txs : List PendingTx) (config : TrackerConfig F) (events : List MempoolEvent)
      (i j : ℕ) (tx later : PendingTx)
      → let m = run ops events (from_channel initial_txs config) in
        total m m.priority_queue < u64_mod
        → find_tx_by_id i m.account_queues ≡ some tx
        → find_tx_by_id j m.account_queues ≡ some later
        → classify_transaction m tx ≡ marketable
        → classify_transaction m later ≡ marketable
        → contains (priority_key m.current_base_fee tx) m.priority_queue ≡ true
        → Comes (priority_key m.current_base_fee tx) (priority_key m.current_base_fee later)
        → (b : ℕ) × (c : ℕ) × (estimated_blocks_to_confirm ops m i ≡ some b)
          × (estimated_blocks_to_confirm ops m j ≡ some c)
          × (b ≤ c)
  unfolding is_marketable_class
  run-estimated_blocks_to_confirm initial_txs config events i j tx later small at_i at_j class_i
        class_j ranked before =
      let m = run ops events (from_channel initial_txs config) in
      let key = priority_key m.current_base_fee tx in
      let key' = priority_key m.current_base_fee later in
      let found = (run-find_tx_by_id initial_txs config events i tx at_i).0 in
      let own : key_gas m key ≡ tx.gas_limit = key_gas_found m key tx found in
      let ahead =
        total-range_to_later m key key' m.priority_queue
          (reached-IsOrdered ops initial_txs config events) ranked before in
      (
        blocks (usable_capacity ops m) (total m (range_to descending key m.priority_queue))
            tx.gas_limit,
        blocks (usable_capacity ops m) (total m (range_to descending key' m.priority_queue))
            later.gas_limit,
        estimated_blocks_to_confirm-blocks ops m i tx at_i (ap is_marketable_class class_i) small,
        estimated_blocks_to_confirm-blocks ops m j later at_j (ap is_marketable_class class_j)
            small,
        blocks_mono (usable_capacity ops m) (total m (range_to descending key m.priority_queue))
            tx.gas_limit (total m (range_to descending key' m.priority_queue)) later.gas_limit
            (omega (arith, ahead, own)),
      )
