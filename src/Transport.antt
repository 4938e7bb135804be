-- ===== src/Transport.antt =====
-- crates/mempooloracle/src/lib.rs: the transports of a tracker, their errors, and the channel by which
-- they feed it. `F` is the type of `f64`.
pub mod Rpc
pub mod P2p
pub mod Connect
use Prim.Native.String.{String}
use bulkmail.Prelude.{
  ℕ, List, [], ◌∷◌, ◌++◌, Bool, true, false, if◌then◌else◌, Option, Result, ok, err,
}
use bulkmail.Mempool.Tracker.{MempoolEvent}
use bulkmail.Runtime.{RuntimeTelemetry}

-- What the client library's errors carry is their text.
pub data TrackerError : Type 0 where
  transport : String → TrackerError
  timeout : String → TrackerError
  setup : String → TrackerError
  feature_disabled : String → TrackerError
  unsupported_transport : String → TrackerError

pub data ConsensusTransportImplementation : Type 0 where
  eth2_libp2p : ConsensusTransportImplementation

pub record ConsensusTransportConfig : Type 0 where
  pub implementation : ConsensusTransportImplementation

pub data P2pBlockTransport : Type 0 where
  execution_polling : P2pBlockTransport
  consensus : ConsensusTransportConfig → P2pBlockTransport

-- Peers and addresses are text that third-party code parses.
pub record P2pTransportConfig : Type 0 where
  pub chain : String
  pub bootnodes : List String
  pub discovery_v4 : Bool
  pub listen_addr : Option String
  pub block_transport : P2pBlockTransport

pub record RpcTransportConfig : Type 0 where
  pub ws : String

pub data TrackerTransport : Type 0 where
  rpc : RpcTransportConfig → TrackerTransport
  p2p : P2pTransportConfig → TrackerTransport

-- A future under a time limit: `timeout(limit, future)`.
pub data Timed {ℓ} (A : Type ℓ) : Type ℓ where
  elapsed : Timed A
  answered : A → Timed A

-- `.await.map_err(|_| TrackerError::Timeout { stage })?.map_err(TrackerError::from)?`
unfoldable pub at_stage {ℓ} :
    {A : Type ℓ} → String → Timed (Result String A) → Result TrackerError A
at_stage stage elapsed = err (timeout stage)
at_stage stage (answered (ok a)) = ok a
at_stage stage (answered (err why)) = err (transport why)

-- The `mpsc` channel: all that was ever sent, what of it the tracker has still to receive, and
-- whether the tracker's end is there.
pub record Channel : Type 0 where
  pub sent : List MempoolEvent
  pub unread : List MempoolEvent
  pub receiver : Bool

abbrev pub open_channel : Channel
open_channel = record { sent = []; unread = []; receiver = true }

-- `event_tx.send(event)`; `false` is an error.
unfoldable pub send : MempoolEvent → Channel → Channel × Bool
send e c =
    if c.receiver
    then (record c { sent = c.sent ++ e ∷ []; unread = c.unread ++ e ∷ [] }, true)
    else (c, false)

-- What the tasks of a transport share.
pub record Feed : Type 0 where
  pub channel : Channel
  pub telemetry : RuntimeTelemetry

-- A send on the channel of a feed.
unfoldable pub feed : MempoolEvent → Feed → Feed × Bool
unfolding send
feed e f = let (c, sent) = send e f.channel in (record f { channel = c }, sent)
