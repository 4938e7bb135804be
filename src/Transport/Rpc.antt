-- ===== src/Transport/Rpc.antt =====
-- crates/mempooloracle/src/transport/rpc.rs: the tasks that feed a tracker from a node. What the code
-- reads of the client library's blocks and transactions is a record; the fee of the next block, which
-- that library computes, is one of its fields. A task's turn of its loop is one step; the tasks take
-- their steps in any order.
pub mod Conserved
pub mod Heard
pub mod Received
pub mod Stopped
pub mod Tracked
pub mod Turns
use Prim.Native.String.{String}
use bulkmail.Prelude.{
  ℕ, List, [], ◌∷◌, ◌++◌, map, length, Bool, true, false, if◌then◌else◌, Option, none, some, Result,
  ok, err,
}
use bulkmail.Mempool.Queues.{PendingTx}
use bulkmail.Mempool.{BlockUpdate}
use bulkmail.Mempool.Tracker.{MempoolEvent, pending_transaction, new_block}
use bulkmail.Runtime.{
  RuntimeTelemetry, new as new_telemetry, rpc as rpc_kind, record_backfill_size, record_block,
  record_pending_seen,
}
use bulkmail.Transport.{
  TrackerError, Timed, elapsed, answered, at_stage, Channel, open_channel, Feed, feed,
}

pub record RpcTransaction : Type 0 where
  pub tx_hash : ℕ
  pub from : ℕ
  pub nonce : ℕ
  pub max_fee_per_gas : ℕ
  pub max_priority_fee_per_gas : Option ℕ
  pub priority_fee_or_price : ℕ
  pub gas_limit : ℕ

pub record RpcBlock : Type 0 where
  pub transactions : List RpcTransaction
  pub next_block_base_fee : Option ℕ
  pub base_fee_per_gas : Option ℕ
  pub gas_used : ℕ
  pub gas_limit : ℕ

-- By account and nonce, as the node prints them.
pub record TxpoolContents : Type 0 where
  pub pending : List (String × List (String × RpcTransaction))
  pub queued : List (String × List (String × RpcTransaction))

-- The node's side, over the state `E` of the connection. A subscription is the stream that the tasks
-- later read; a request is given by the name of its method.
pub record Provider (E : Type 0) : Type 0 where
  pub subscribe_blocks : E → Timed (Result String (Unit {0})) × E
  pub subscribe_full_pending_transactions : E → Timed (Result String (Unit {0})) × E
  pub raw_request : String → E → Timed (Result String TxpoolContents) × E

abbrev pub or_else {ℓ} : {A : Type ℓ} → Option A → A → A
or_else (some a) b = a
or_else none b = b

unfoldable pub alloy_tx_to_pending_tx : RpcTransaction → PendingTx
alloy_tx_to_pending_tx tx = record {
  id = tx.tx_hash;
  sender = tx.from;
  nonce = tx.nonce;
  max_fee_per_gas = tx.max_fee_per_gas;
  max_priority_fee_per_gas = or_else tx.max_priority_fee_per_gas tx.priority_fee_or_price;
  gas_limit = tx.gas_limit;
}

-- The base fee after a block: the computed one, else the block's own, else 0.
abbrev pub new_base_fee : Option ℕ → Option ℕ → ℕ
new_base_fee next own = or_else next (or_else own 0)

unfoldable pub block_update : RpcBlock → BlockUpdate
unfolding alloy_tx_to_pending_tx
block_update block = record {
  included_txs = map alloy_tx_to_pending_tx block.transactions;
  new_base_fee = new_base_fee block.next_block_base_fee block.base_fee_per_gas;
  gas_used = block.gas_used;
  gas_limit = block.gas_limit;
}

-- The transactions of all accounts, in the order of the maps.
unfoldable pub pool_txs : List (String × List (String × RpcTransaction)) → List RpcTransaction
pool_txs [] = []
pool_txs ((_, txs) ∷ accounts) = map (λ e. e.1) txs ++ pool_txs accounts

unfoldable pub contents_txs : TxpoolContents → List PendingTx
unfolding pool_txs alloy_tx_to_pending_tx
contents_txs c = map alloy_tx_to_pending_tx (pool_txs c.pending ++ pool_txs c.queued)

abbrev pub as_pending_txs :
    Result TrackerError TxpoolContents → Result TrackerError (List PendingTx)
as_pending_txs (ok c) = ok (contents_txs c)
as_pending_txs (err e) = err e

module _ {E : Type 0} (provider : Provider E) where
  -- The answer to the first request, or a second request under the other name of the method.
  unfoldable pub backfill_from :
      Timed (Result String TxpoolContents) → E → Result TrackerError (List PendingTx) × E
  unfolding contents_txs at_stage
  backfill_from (answered (ok c)) e = (ok (contents_txs c), e)
  backfill_from (answered (err why)) e =
      let (r, e') = provider.raw_request "txpool_content" e in
      (as_pending_txs (at_stage "txpool_content backfill" r), e')
  backfill_from elapsed e =
      let (r, e') = provider.raw_request "txpool_content" e in
      (as_pending_txs (at_stage "txpool_content backfill" r), e')

  unfoldable pub backfill_mempool : E → Result TrackerError (List PendingTx) × E
  unfolding backfill_from
  backfill_mempool e = let (r, e') = provider.raw_request "txpool_contents" e in backfill_from r e'

-- Where the backfill stands: before its answer, in its loop, or over.
pub data BackfillTask : Type 0 where
  asking : BackfillTask
  sending : List PendingTx → BackfillTask
  over : BackfillTask

-- The three tasks of a connection; the other two run or have ended.
pub record Tasks : Type 0 where
  pub feed : Feed
  pub block_task : Bool
  pub pending_task : Bool
  pub backfill : BackfillTask

abbrev pub started : Tasks
started = record {
  feed = record { channel = open_channel; telemetry = new_telemetry rpc_kind };
  block_task = true;
  pending_task = true;
  backfill = asking;
}

-- What happens: a task sees the shutdown, its stream yields or ends (`none`), the node answers, the
-- loop of the backfill goes on (having seen the shutdown, or not), or the tracker's end is dropped.
pub data Input : Type 0 where
  block_shutdown : Input
  header : Option (Result String (Option RpcBlock)) → Input
  pending_shutdown : Input
  transaction : Option RpcTransaction → Input
  backfill_shutdown : Input
  backfill_answer : Result TrackerError (List PendingTx) → Input
  backfill_turn : Bool → Input
  receiver_dropped : Input

-- A turn of `run_block_subscription`. A header comes with the answer to the request for its block.
unfoldable pub on_header : Option (Result String (Option RpcBlock)) → Tasks → Tasks
unfolding block_update record_block
on_header none s = record s { block_task = false }
on_header (some (err why)) s = s
on_header (some (ok none)) s = s
on_header (some (ok (some block))) s =
    let update = block_update block in
    let counted = record s.feed {
      telemetry = record_block (length update.included_txs) update.gas_used s.feed.telemetry;
    } in
    let (f, sent) = feed (new_block update) counted in record s { feed = f; block_task = sent }

-- A turn of `run_pending_subscription`.
unfoldable pub on_transaction : Option RpcTransaction → Tasks → Tasks
unfolding record_pending_seen
on_transaction none s = record s { pending_task = false }
on_transaction (some tx) s =
    let counted = record s.feed { telemetry = record_pending_seen s.feed.telemetry } in
    let (f, sent) = feed (pending_transaction (alloy_tx_to_pending_tx tx)) counted in
    record s { feed = f; pending_task = sent }

-- `run_backfill`: its answer, and a turn of its loop.
unfoldable pub on_backfill : Result TrackerError (List PendingTx) → Tasks → Tasks
unfolding record_backfill_size
on_backfill (err e) s = record s { backfill = over }
on_backfill (ok txs) s = record s {
  feed = record s.feed { telemetry = record_backfill_size (length txs) s.feed.telemetry };
  backfill = sending txs;
}

unfoldable pub backfill_loop : Bool → List PendingTx → Tasks → Tasks
backfill_loop stopped [] s = record s { backfill = over }
backfill_loop true (tx ∷ txs) s = record s { backfill = over }
backfill_loop false (tx ∷ txs) s =
    let (f, sent) = feed (pending_transaction tx) s.feed in
    record s { feed = f; backfill = if sent then sending txs else over }

-- Each turn is of the task that it belongs to, while that runs.
abbrev backfill_step : BackfillTask → Input → Tasks → Tasks
backfill_step asking backfill_shutdown s = record s { backfill = over }
backfill_step asking (backfill_answer r) s = on_backfill r s
backfill_step (sending txs) (backfill_turn stopped) s = backfill_loop stopped txs s
backfill_step _ _ s = s

unfoldable pub step : Input → Tasks → Tasks
unfolding on_header on_transaction on_backfill backfill_loop
step block_shutdown s = record s { block_task = false }
step (header r) s = if s.block_task then on_header r s else s
step pending_shutdown s = record s { pending_task = false }
step (transaction tx) s = if s.pending_task then on_transaction tx s else s
step backfill_shutdown s = backfill_step s.backfill backfill_shutdown s
step (backfill_answer r) s = backfill_step s.backfill (backfill_answer r) s
step (backfill_turn stopped) s = backfill_step s.backfill (backfill_turn stopped) s
step receiver_dropped s = record s {
  feed = record s.feed { channel = record s.feed.channel { receiver = false } };
}

unfoldable pub steps : List Input → Tasks → Tasks
unfolding step
steps [] s = s
steps (i ∷ inputs) s = steps inputs (step i s)
