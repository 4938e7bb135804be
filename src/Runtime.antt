-- ===== src/Runtime.antt =====
-- crates/mempooloracle/src/runtime.rs: the telemetry of a tracker. Each counter is an atomic `u64`, so
-- that concurrent updates of one of them are updates in some order.
pub mod Counts
use bulkmail.Prelude.{ℕ, List, [], ◌∷◌, add_u64}

pub data TransportKind : Type 0 where
  rpc : TransportKind
  p2p : TransportKind

-- `RuntimeTelemetry`; `snapshot` reads all the fields.
pub record RuntimeTelemetry : Type 0 where
  pub transport_kind : TransportKind
  pub pending_seen : ℕ
  pub block_count : ℕ
  pub last_block_txs : ℕ
  pub last_block_gas_used : ℕ
  pub initial_backfill_txs : ℕ
  pub p2p_peer_count : ℕ
  pub p2p_announced_txs : ℕ
  pub p2p_imported_txs : ℕ

unfoldable pub new : TransportKind → RuntimeTelemetry
new kind = record {
  transport_kind = kind;
  pending_seen = 0;
  block_count = 0;
  last_block_txs = 0;
  last_block_gas_used = 0;
  initial_backfill_txs = 0;
  p2p_peer_count = 0;
  p2p_announced_txs = 0;
  p2p_imported_txs = 0;
}

unfoldable pub record_backfill_size : ℕ → RuntimeTelemetry → RuntimeTelemetry
record_backfill_size txs t = record t { initial_backfill_txs = txs }

unfoldable pub record_pending_seen : RuntimeTelemetry → RuntimeTelemetry
record_pending_seen t = record t { pending_seen = add_u64 t.pending_seen 1 }

unfoldable pub record_block : ℕ → ℕ → RuntimeTelemetry → RuntimeTelemetry
record_block txs gas_used t = record t {
  block_count = add_u64 t.block_count 1;
  last_block_txs = txs;
  last_block_gas_used = gas_used;
}

unfoldable pub record_p2p_peer_count : ℕ → RuntimeTelemetry → RuntimeTelemetry
record_p2p_peer_count peers t = record t { p2p_peer_count = peers }

unfoldable pub record_p2p_announcement : RuntimeTelemetry → RuntimeTelemetry
record_p2p_announcement t = record t { p2p_announced_txs = add_u64 t.p2p_announced_txs 1 }

unfoldable pub record_p2p_import : RuntimeTelemetry → RuntimeTelemetry
record_p2p_import t = record t { p2p_imported_txs = add_u64 t.p2p_imported_txs 1 }

-- What is recorded: the calls of the methods.
pub data Event : Type 0 where
  backfill : ℕ → Event
  pending : Event
  block : ℕ → ℕ → Event
  peers : ℕ → Event
  announcement : Event
  import_ : Event

unfoldable pub record_event : Event → RuntimeTelemetry → RuntimeTelemetry
unfolding record_backfill_size record_pending_seen record_block record_p2p_peer_count
    record_p2p_announcement record_p2p_import
record_event (backfill txs) t = record_backfill_size txs t
record_event pending t = record_pending_seen t
record_event (block txs gas_used) t = record_block txs gas_used t
record_event (peers n) t = record_p2p_peer_count n t
record_event announcement t = record_p2p_announcement t
record_event import_ t = record_p2p_import t

unfoldable pub record_events : List Event → RuntimeTelemetry → RuntimeTelemetry
unfolding record_event
record_events [] t = t
record_events (e ∷ events) t = record_events events (record_event e t)
