-- ===== src/Transport/P2p.antt =====
-- crates/mempooloracle/src/transport/p2p.rs: the embedded peer-to-peer transport. Peers, the pool and
-- the network are third-party code: what they answer is an input. A map of sessions is a list.
pub mod Peers
pub mod Selected
pub mod Polled
pub mod Polling
use Prim.Native.String.{String, ◌++◌ as str_append}
use bulkmail.Prelude.{
  ℕ, ◌+◌, ◌-◌, ltb, leb, ◌==◌, List, [], ◌∷◌, map, length, Bool, true, false, if◌then◌else◌, Option,
  none, some, Result, ok, err, add_u64,
}
use bulkmail.Mempool.Queues.{PendingTx}
use bulkmail.Mempool.{BlockUpdate}
use bulkmail.Mempool.Tracker.{MempoolEvent, pending_transaction, new_block}
use bulkmail.Runtime.{
  record_backfill_size, record_block, record_pending_seen, record_p2p_import, record_p2p_peer_count,
}
use bulkmail.Transport.{TrackerError, timeout, setup, Timed, elapsed, answered, Feed, feed}
use bulkmail.Transport.Rpc.{or_else, new_base_fee}

-- `requests` stands for the channel of the session.
pub record PeerSession : Type 0 where
  pub latest_block : Option ℕ
  pub head_hash : ℕ
  pub requests : ℕ

abbrev pub PeerSessions : Type 0
PeerSessions = List (ℕ × PeerSession)

-- What the code reads of a pooled transaction, of a signed one and its recovered signer, of a header
-- with its hash and the fee of the next block, and of a body.
pub record PooledTx : Type 0 where
  pub hash : ℕ
  pub sender : ℕ
  pub nonce : ℕ
  pub max_fee_per_gas : ℕ
  pub max_priority_fee_per_gas : Option ℕ
  pub priority_fee_or_price : ℕ
  pub gas_limit : ℕ

pub record SignedTx : Type 0 where
  pub tx_hash : ℕ
  pub signer : Option ℕ
  pub nonce : ℕ
  pub max_fee_per_gas : ℕ
  pub max_priority_fee_per_gas : Option ℕ
  pub gas_limit : ℕ

pub record Header : Type 0 where
  pub hash : ℕ
  pub number : ℕ
  pub next_block_base_fee : Option ℕ
  pub base_fee_per_gas : Option ℕ
  pub gas_used : ℕ
  pub gas_limit : ℕ

abbrev pub BlockBody : Type 0
BlockBody = List SignedTx

unfoldable pub pending_tx_from_reth : PooledTx → PendingTx
pending_tx_from_reth tx = record {
  id = tx.hash;
  sender = tx.sender;
  nonce = tx.nonce;
  max_fee_per_gas = tx.max_fee_per_gas;
  max_priority_fee_per_gas = or_else tx.max_priority_fee_per_gas tx.priority_fee_or_price;
  gas_limit = tx.gas_limit;
}

unfoldable pub pending_tx_from_signed : SignedTx → Option PendingTx
pending_tx_from_signed tx = elim tx.signer [
  | none ↦ none
  | some sender ↦ some (record {
    id = tx.tx_hash;
    sender = sender;
    nonce = tx.nonce;
    max_fee_per_gas = tx.max_fee_per_gas;
    max_priority_fee_per_gas = or_else tx.max_priority_fee_per_gas 0;
    gas_limit = tx.gas_limit;
  })
]

-- `filter_map(pending_tx_from_signed)`
unfoldable pub included : BlockBody → List PendingTx
unfolding pending_tx_from_signed
included [] = []
included (tx ∷ txs) = elim (pending_tx_from_signed tx) [
  | none ↦ included txs
  | some p ↦ p ∷ included txs
]

unfoldable pub block_update_from_header_body : Header → BlockBody → BlockUpdate
unfolding included
block_update_from_header_body header body = record {
  included_txs = included body;
  new_base_fee = new_base_fee header.next_block_base_fee header.base_fee_per_gas;
  gas_used = header.gas_used;
  gas_limit = header.gas_limit;
}

abbrev bootnode_message : String → String → String
bootnode_message node why =
    str_append "failed to parse bootnode `" (str_append node (str_append "`: " why))

-- `TrustedPeer::from_str` on each; the first that it refuses ends the call. `P` is a parsed peer.
unfoldable pub parse_bootnodes :
    {P : Type 0} → (String → Result String P) → List String → Result TrackerError (List P)
parse_bootnodes from_str [] = ok []
parse_bootnodes from_str (node ∷ nodes) = elim (from_str node) [
  | err why ↦ err (setup (bootnode_message node why))
  | ok p ↦ elim (parse_bootnodes from_str nodes) [ err e ↦ err e | ok ps ↦ ok (p ∷ ps) ]
]

-- The `else` arm of a `select!` runs only when every other arm is disabled by its pattern, and the
-- pattern of the shutdown arm refuses nothing: so each turn of the loop waits for the shutdown, and
-- ends the loop.
unfoldable pub run_backfill : List PooledTx → Feed → Feed
run_backfill existing f = record f {
  telemetry = record_backfill_size (length existing) f.telemetry;
}

-- A turn of `run_pending_listener`: the stream ends, or yields a hash with what the pool has for it.
unfoldable pub on_pending_hash : Option (Option PooledTx) → Feed → Feed × Bool
unfolding pending_tx_from_reth
on_pending_hash none f = (f, false)
on_pending_hash (some none) f = (f, true)
on_pending_hash (some (some tx)) f =
    let seen = record f { telemetry = record_p2p_import (record_pending_seen f.telemetry) } in
    feed (pending_transaction (pending_tx_from_reth tx)) seen

-- What `run_peer_event_listener` reacts to.
pub data PeerEvent : Type 0 where
  active_peer_session : ℕ → PeerSession → PeerEvent
  session_closed : ℕ → PeerEvent
  peer_removed : ℕ → PeerEvent
  other_event : PeerEvent

unfoldable pub insert_session : ℕ → PeerSession → PeerSessions → PeerSessions
insert_session peer s [] = (peer, s) ∷ []
insert_session peer s ((p, t) ∷ rest) =
    if peer == p then (peer, s) ∷ rest else (p, t) ∷ insert_session peer s rest

unfoldable pub remove_session : ℕ → PeerSessions → PeerSessions
remove_session peer [] = []
remove_session peer ((p, t) ∷ rest) = if peer == p then rest else (p, t) ∷ remove_session peer rest

abbrev with_count : PeerSessions → Feed → PeerSessions × Feed
with_count sessions f =
    (sessions, record f { telemetry = record_p2p_peer_count (length sessions) f.telemetry })

unfoldable pub on_peer_event : PeerEvent → PeerSessions → Feed → PeerSessions × Feed
unfolding insert_session remove_session
on_peer_event (active_peer_session peer s) sessions f =
    with_count (insert_session peer s sessions) f
on_peer_event (session_closed peer) sessions f = with_count (remove_session peer sessions) f
on_peer_event (peer_removed peer) sessions f = with_count (remove_session peer sessions) f
on_peer_event other_event sessions f = (sessions, f)

-- The events until the shutdown, or the end of their stream.
unfoldable pub run_peer_event_listener : List PeerEvent → PeerSessions → Feed → PeerSessions × Feed
unfolding on_peer_event
run_peer_event_listener [] sessions f = (sessions, f)
run_peer_event_listener (event ∷ events) sessions f =
    let (sessions', f') = on_peer_event event sessions f in
    run_peer_event_listener events sessions' f'
