-- ===== src/Tests/Transports.antt =====
-- crates/mempooloracle/src/transport at concrete inputs: a node with one block and one pooled
-- transaction, and a network of two peers that answer with one header.
use Prim.Native.String.{String}
use bulkmail.Prelude.{ℕ, ◌≡◌, refl, List, [], ◌∷◌, ◌++◌, map, false, none, some, Result, ok, All}
use bulkmail.Runtime.{new as new_telemetry, p2p as p2p_kind}
use bulkmail.Transport.{open_channel, Feed, feed, Timed, elapsed, answered, rpc}
use bulkmail.Transport.Rpc.{
  RpcTransaction, RpcBlock, Provider, Input, header, transaction, backfill_answer, backfill_turn,
  started, steps,
}
use bulkmail.Transport.Rpc.Conserved.{Kept, Agree, steps-Agree}
use bulkmail.Transport.Rpc.Tracked.{Move, task, receive, moves, connected, System}
use bulkmail.Transport.P2p.{
  PeerSession, PeerSessions, Header, BlockBody, PeerEvent, active_peer_session, session_closed,
  run_peer_event_listener,
}
use bulkmail.Transport.P2p.Polling.{Network, poller, run_block_poller, replied, select_peer}
use bulkmail.Transport.P2p.Polled.{Answered, NoRepeat, as_event, last_of, run_block_poller-NoRepeat}
use bulkmail.Transport.P2p.Peers.{Counted, last_told, session_of, run_peer_event_listener-last_told}
use bulkmail.Transport.P2p.Selected.{IsChoice, select_peer-IsChoice}
use bulkmail.Transport.Connect.{Features, connect}
use bulkmail.Transport.Connect.Outcome.{Outcome, connect-Outcome}
use bulkmail.Tests.Tracking.{percents, small, cheap}

abbrev rpc_tx : RpcTransaction
rpc_tx = record {
  tx_hash = 4;
  from = 9;
  nonce = 1;
  max_fee_per_gas = 40;
  max_priority_fee_per_gas = none;
  priority_fee_or_price = 3;
  gas_limit = 21000;
}

abbrev rpc_block : RpcBlock
rpc_block = record {
  transactions = rpc_tx ∷ [];
  next_block_base_fee = some 11;
  base_fee_per_gas = some 12;
  gas_used = 21000;
  gas_limit = 30_000_000;
}

abbrev inputs : List Input
inputs =
    header (some (ok (some rpc_block)))
    ∷ backfill_answer (ok (cheap ∷ []))
    ∷ transaction (some rpc_tx)
    ∷ backfill_turn false
    ∷ []

inputs-Kept : All Kept inputs
inputs-Kept = (refl, (refl, (refl, (refl, tt))))

steps-Agree_example : Agree (steps inputs started)
steps-Agree_example = steps-Agree inputs inputs-Kept

abbrev turns : List Move
turns = task (header (some (ok (some rpc_block)))) ∷ receive ∷ []

abbrev caught_up : System ℕ
caught_up = moves percents turns (connected small)

abbrev session : PeerSession
session = record { latest_block = some 20; head_hash = 5; requests = 1 }

abbrev sessions : PeerSessions
sessions = (1, session) ∷ (2, record session { latest_block = some 21; requests = 2 }) ∷ []

abbrev head : Header
head = record {
  hash = 5;
  number = 20;
  next_block_base_fee = some 11;
  base_fee_per_gas = none;
  gas_used = 0;
  gas_limit = 30_000_000;
}

abbrev peers : Network ℕ
peers = record {
  get_headers = λ peer request e. (replied (ok (head ∷ [])), e);
  get_bodies = λ requests hash e. (replied (ok ([] ∷ [])), e);
}

abbrev quiet_feed : Feed
quiet_feed = record { channel = open_channel; telemetry = new_telemetry p2p_kind }

run_block_poller-NoRepeat_example :
    let p = (run_block_poller peers (sessions ∷ sessions ∷ []) (poller quiet_feed) 0).0 in
    (blocks : List (Header × BlockBody)) × (p.feed.channel.sent ≡ [] ++ map as_event blocks)
    × All (Answered peers) blocks
    × NoRepeat none blocks
    × (p.last_block_hash ≡ last_of none blocks)
run_block_poller-NoRepeat_example =
    run_block_poller-NoRepeat peers (sessions ∷ sessions ∷ []) quiet_feed 0

abbrev joined_and_left : List PeerEvent
joined_and_left =
    active_peer_session 1 session ∷ active_peer_session 2 session ∷ session_closed 1 ∷ []

run_peer_event_listener-last_told_example :
    ((q : ℕ)
      → session_of q (run_peer_event_listener joined_and_left [] quiet_feed).0
        ≡ last_told q joined_and_left (session_of q []))
    × Counted (run_peer_event_listener joined_and_left [] quiet_feed)
unfolding new_telemetry
run_peer_event_listener-last_told_example =
    run_peer_event_listener-last_told joined_and_left [] quiet_feed (tt, refl)

select_peer-IsChoice_example :
    IsChoice (some 22) (map (λ e. e.1) sessions) (select_peer sessions (some 22))
select_peer-IsChoice_example = select_peer-IsChoice sessions (some 22)

abbrev node : String → ℕ → Timed (Result String (Provider ℕ)) × ℕ
node ws e = (
  answered (
      ok (record {
        subscribe_blocks = λ e. (answered (ok tt), e);
        subscribe_full_pending_transactions = λ e. (answered (ok tt), e);
        raw_request = λ method e. (elapsed, e);
      })),
  e,
)

abbrev no_p2p : Features
no_p2p = record { reth_p2p = false; consensus_p2p = false }

connect-Outcome_example :
    Outcome node small
      (rpc (record { ws = "ws://node" }))
      0
      (connect node no_p2p (rpc (record { ws = "ws://node" })) small 0)
connect-Outcome_example = connect-Outcome node small no_p2p (rpc (record { ws = "ws://node" })) 0
