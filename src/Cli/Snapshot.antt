-- ===== src/Cli/Snapshot.antt =====
-- crates/mempooloracle/examples/cli_tool.rs: what the tool reads of a tracker and its telemetry for one
-- screen. Each call of the handle reads the tracker in the state that it is in then: the answers are
-- an input, so that any events may come between the calls.
pub mod Packed
pub mod Bounded
pub mod Tipped
use bulkmail.Prelude.{
  ℕ, ◌+◌, ◌-◌, ◌*◌, ◌/◌, ◌%◌, ◌^◌, min, ltb, ◌==◌, List, [], ◌∷◌, ◌++◌, length, Bool, true, false,
  if◌then◌else◌, Option, none, some, add_u64, u64_mod,
}
use bulkmail.Mempool.Index.{Key, Keys}
use bulkmail.Mempool.Queues.{PendingTx}
use bulkmail.Mempool.{MempoolInner}
use bulkmail.Mempool.Block.{FloatOps}
use bulkmail.Mempool.Query.{find_tx_by_addr_and_nonce, estimated_blocks_to_confirm}
use bulkmail.Runtime.{RuntimeTelemetry}
use bulkmail.Transport.Rpc.{or_else}

-- The counters of a simulated run.
pub record Telemetry : Type 0 where
  pub pending_seen : ℕ
  pub block_count : ℕ
  pub last_block_txs : ℕ
  pub last_block_gas_used : ℕ

abbrev pub AlloyTelemetryView : Type 0
AlloyTelemetryView = Telemetry

pub data TelemetrySource : Type 0 where
  live : RuntimeTelemetry → TelemetrySource
  simulated : Telemetry → TelemetrySource

-- `TelemetrySource::snapshot`, with the two conversions.
unfoldable pub telemetry_view : TelemetrySource → AlloyTelemetryView
telemetry_view (live t) = record {
  pending_seen = t.pending_seen;
  block_count = t.block_count;
  last_block_txs = t.last_block_txs;
  last_block_gas_used = t.last_block_gas_used;
}
telemetry_view (simulated t) = t

pub record TxRow : Type 0 where
  pub nonce : ℕ
  pub effective_priority_fee : ℕ
  pub priority_fee : ℕ
  pub max_fee : ℕ
  pub gas_limit : ℕ
  pub eta_blocks : ℕ
  pub sender_prefix : ℕ × ℕ

pub record Snapshot (F : Type 0) : Type 0 where
  pub elapsed_secs : ℕ
  pub base_fee : ℕ
  pub private_flow : F
  pub private_flow_percent : ℕ
  pub min_tip : ℕ
  pub expected_txs : ℕ
  pub gas_used_for_next_block : ℕ
  pub usable_capacity : ℕ
  pub next_block_fill_percent : ℕ
  pub marketable_count : ℕ
  pub marketable_utilization : ℕ
  pub block_count : ℕ
  pub pending_seen : ℕ
  pub last_block_txs : ℕ
  pub last_block_gas_used : ℕ
  pub ranked_rows : List TxRow

-- What the calls of the handle answer, in the order of the code; the last two by their arguments.
pub record Answers (F : Type 0) : Type 0 where
  pub current_base_fee : ℕ
  pub private_flow_ratio : F
  pub last_block_gas_limit : ℕ
  pub private_flow_ratio_again : F
  pub priority_queue : Keys
  pub find_tx_by_addr_and_nonce : ℕ → ℕ → Option PendingTx
  pub estimated_blocks_to_confirm : ℕ → Option ℕ

-- The answers of a tracker that no event reaches in between.
abbrev pub quiet : {F : Type 0} → FloatOps F → MempoolInner F → Answers F
quiet ops m = record {
  current_base_fee = m.current_base_fee;
  private_flow_ratio = m.private_flow_ratio;
  last_block_gas_limit = m.last_block_gas_limit;
  private_flow_ratio_again = m.private_flow_ratio;
  priority_queue = m.priority_queue;
  find_tx_by_addr_and_nonce = find_tx_by_addr_and_nonce m;
  estimated_blocks_to_confirm = estimated_blocks_to_confirm ops m;
}

-- The variables of the loop.
pub record Packing : Type 0 where
  pub expected_txs : ℕ
  pub min_tip : ℕ
  pub gas_used : ℕ
  pub ranked_rows : List TxRow

abbrev pub empty_packing : Packing
empty_packing = record { expected_txs = 0; min_tip = 0; gas_used = 0; ranked_rows = [] }

-- The first two bytes of an address, which is the number of its 20 bytes from the greatest.
abbrev sender_prefix_of : ℕ → ℕ × ℕ
sender_prefix_of sender = (sender / 2 ^ 152 % 256, sender / 2 ^ 144 % 256)

unfoldable pub tx_row : ℕ → PendingTx → Option ℕ → TxRow
tx_row fee tx eta = record {
  nonce = tx.nonce;
  effective_priority_fee = fee;
  priority_fee = tx.max_priority_fee_per_gas;
  max_fee = tx.max_fee_per_gas;
  gas_limit = tx.gas_limit;
  eta_blocks = or_else eta 0;
  sender_prefix = sender_prefix_of tx.sender;
}

-- A turn of the loop that found its transaction: a row while there is room, then the gas.
unfoldable pub add_row : TxRow → Packing → Packing
add_row row p =
    let rows =
      if ltb (length p.ranked_rows) 256 then p.ranked_rows ++ row ∷ [] else p.ranked_rows in
    record p { ranked_rows = rows }

unfoldable pub pack : ℕ → ℕ → PendingTx → Packing → Packing
pack usable fee tx p = if ltb usable (add_u64 p.gas_used tx.gas_limit) then p else record p {
  gas_used = add_u64 p.gas_used tx.gas_limit;
  min_tip = fee;
  expected_txs = add_u64 p.expected_txs 1;
}

abbrev pub visit : ℕ → ℕ → Option PendingTx → (ℕ → Option ℕ) → Packing → Packing
visit usable fee none eta p = p
visit usable fee (some tx) eta p = pack usable fee tx (add_row (tx_row fee tx (eta tx.id)) p)

unfoldable pub pack_keys :
    ℕ → (ℕ → ℕ → Option PendingTx) → (ℕ → Option ℕ) → Keys → Packing → Packing
unfolding pack add_row tx_row
pack_keys usable find eta [] p = p
pack_keys usable find eta (k ∷ keys) p =
    pack_keys usable find eta keys (visit usable k.fee (find k.addr k.nonce) eta p)

abbrev pub saturating_mul_u64 : ℕ → ℕ → ℕ
saturating_mul_u64 a b = min (a * b) (u64_mod - 1)

-- `round` is that of `f64`.
module _ {F : Type 0} (ops : FloatOps F) (round : F → F) where
  unfoldable pub capture : Answers F → TelemetrySource → ℕ → Snapshot F
  unfolding pack_keys telemetry_view
  capture a telemetry elapsed =
      let hundred = ops.of_u64 100 in
      let private_flow = ops.mul a.private_flow_ratio hundred in
      let usable : ℕ = ops.to_u64 (
        ops.mul (ops.of_u64 a.last_block_gas_limit) (ops.sub ops.one a.private_flow_ratio_again)) in
      let p =
        pack_keys usable a.find_tx_by_addr_and_nonce a.estimated_blocks_to_confirm a.priority_queue
          empty_packing in
      let t = telemetry_view telemetry in
      record {
        elapsed_secs = elapsed;
        base_fee = a.current_base_fee;
        private_flow = private_flow;
        private_flow_percent = ops.to_u64 (round private_flow);
        min_tip = p.min_tip;
        expected_txs = p.expected_txs;
        gas_used_for_next_block = p.gas_used;
        usable_capacity = usable;
        next_block_fill_percent =
            if usable == 0 then 0 else saturating_mul_u64 p.gas_used 100 / usable;
        marketable_count = length a.priority_queue;
        marketable_utilization = min (length a.priority_queue) 1000 * 100 / 1000;
        block_count = t.block_count;
        pending_seen = t.pending_seen;
        last_block_txs = t.last_block_txs;
        last_block_gas_used = t.last_block_gas_used;
        ranked_rows = p.ranked_rows;
      }
