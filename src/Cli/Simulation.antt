-- ===== src/Cli/Simulation.antt =====
-- crates/mempooloracle/examples/cli_tool.rs: the simulated chain, from one look at the stop flag to the
-- next. `should_stop_for`, which looks at it many times while it waits, is one look.
pub mod Logged
pub mod Rounds
use bulkmail.Prelude.{
  ℕ, zero, suc, ◌+◌, ◌-◌, ◌*◌, ◌/◌, ◌%◌, ◌^◌, List, [], ◌∷◌, length, Bool, true, false,
  if◌then◌else◌, add_u64, ltb,
}
use bulkmail.Mempool.Queues.{PendingTx}
use bulkmail.Mempool.{BlockUpdate}
use bulkmail.Mempool.Tracker.{pending_transaction, new_block}
use bulkmail.Transport.{Channel, open_channel, send}
use bulkmail.Cli.Snapshot.{Telemetry}

-- The number whose bytes, as many as given, are all `byte`.
abbrev all_bytes : ℕ → ℕ → ℕ
all_bytes zero byte = 0
all_bytes (suc n) byte = all_bytes n byte * 256 + byte

unfoldable pub simulated_tx : ℕ → PendingTx
simulated_tx nonce = record {
  id = all_bytes 32 (nonce % 256);
  sender = all_bytes 20 1;
  nonce = nonce;
  max_fee_per_gas = 15 + nonce % 10;
  max_priority_fee_per_gas = 1 + nonce % 5;
  gas_limit = 21000;
}

-- `n` transactions from a nonce on.
unfoldable pub simulated_txs : ℕ → ℕ → List PendingTx
simulated_txs nonce zero = []
simulated_txs nonce (suc n) = simulated_tx nonce ∷ simulated_txs (nonce + 1) n

-- Where the loop stands when it looks at the flag: at its start, with transactions to send, waiting,
-- or after its end.
pub data Phase : Type 0 where
  starting : Phase
  sending : ℕ → Phase
  waiting : Phase
  over : Phase

pub record Simulation : Type 0 where
  pub nonce : ℕ
  pub block_number : ℕ
  pub telemetry : Telemetry
  pub channel : Channel
  pub phase : Phase

abbrev pub start : Simulation
start = record {
  nonce = 0;
  block_number = 0;
  telemetry = record {
    pending_seen = 0;
    block_count = 0;
    last_block_txs = 0;
    last_block_gas_used = 0;
  };
  channel = open_channel;
  phase = starting;
}

abbrev pub next_phase : ℕ → Phase
next_phase zero = waiting
next_phase (suc left) = sending (suc left)

-- Sends one transaction, with `left` to come after it.
unfoldable pub send_tx : ℕ → Simulation → Simulation
unfolding send simulated_tx
send_tx left s =
    let (c, sent) = send (pending_transaction (simulated_tx s.nonce)) s.channel in
    let counted = record s.telemetry { pending_seen = add_u64 s.telemetry.pending_seen 1 } in
    let on : Simulation = record s {
      channel = c;
      telemetry = counted;
      nonce = add_u64 s.nonce 1;
      phase = next_phase left;
    } in
    let off : Simulation = record s { channel = c; phase = over } in if sent then on else off

unfoldable pub simulated_block : ℕ → ℕ → BlockUpdate
unfolding simulated_txs
simulated_block nonce block_number = record {
  included_txs = simulated_txs (nonce - 10) 5;
  new_base_fee = 10 + block_number % 5;
  gas_used = 21000 * 5;
  gas_limit = 30_000_000;
}

unfoldable pub send_block : Simulation → Simulation
unfolding send simulated_block
send_block s =
    let block = simulated_block s.nonce s.block_number in
    let counted = record s.telemetry {
      block_count = add_u64 s.block_number 1;
      last_block_txs = length block.included_txs;
      last_block_gas_used = 21000 * 5;
    } in
    let (c, sent) = send (new_block block) s.channel in
    let on : Simulation = record s {
      channel = c;
      telemetry = counted;
      block_number = add_u64 s.block_number 1;
      phase = starting;
    } in
    let off : Simulation = record s { channel = c; telemetry = counted; phase = over } in
    if sent then on else off

abbrev pub go_on : Phase → Simulation → Simulation
go_on starting s = record s { phase = sending 10 }
go_on (sending zero) s = record s { phase = waiting }
go_on (sending (suc left)) s = send_tx left s
go_on waiting s = send_block s
go_on over s = s

-- One look at the flag, and what the loop does until the next.
unfoldable pub look : Bool → Simulation → Simulation
unfolding send_tx send_block
look stop s = if stop then record s { phase = over } else go_on s.phase s

-- `simulate_blockchain`, by what it sees of the flag.
unfoldable pub simulate_blockchain : List Bool → Simulation → Simulation
unfolding look
simulate_blockchain [] s = s
simulate_blockchain (stop ∷ stops) s = simulate_blockchain stops (look stop s)
