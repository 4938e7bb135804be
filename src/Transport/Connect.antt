-- ===== src/Transport/Connect.antt =====
-- crates/mempooloracle/src/lib.rs, transport/rpc.rs and transport/p2p.rs: setting up a connection. `Io`
-- is work over the state `E` of the network that may fail: an `async fn` whose `?` leaves it at the
-- first error. The cryptography provider that the code installs first is not part of the state.
pub mod Outcome
use Prim.Native.String.{String}
use text.Mathlib.Text.{◌==◌ as str_eq}
use bulkmail.Prelude.{Bool, true, false, Result, ok, err, if◌then◌else◌}
use bulkmail.Mempool.{TrackerConfig}
use bulkmail.Transport.{
  TrackerError, feature_disabled, unsupported_transport, TrackerTransport, rpc, p2p,
  RpcTransportConfig, P2pTransportConfig, P2pBlockTransport, execution_polling, consensus, Timed,
  at_stage,
}
use bulkmail.Transport.Rpc.{Provider}
use bulkmail.Transport.Rpc.Tracked.{System, connected}

infixl 5 ◌>>=◌ ◌>>◌
abbrev pub Io : Type 0 → Type 0 → Type 0
Io E A = E → Result TrackerError A × E

abbrev pub then_with :
    {E A B : Type 0} → Result TrackerError A × E → (A → Io E B) → Result TrackerError B × E
then_with (ok a, e) k = k a e
then_with (err why, e) k = (err why, e)

abbrev pub ◌>>=◌ : {E A B : Type 0} → Io E A → (A → Io E B) → Io E B
(m >>= k) e = then_with (m e) k

abbrev pub ◌>>◌ : {E A B : Type 0} → Io E A → Io E B → Io E B
m >> k = m >>= λ _. k

abbrev pub pure : {E A : Type 0} → A → Io E A
pure a e = (ok a, e)

abbrev pub fail : {E A : Type 0} → TrackerError → Io E A
fail why e = (err why, e)

-- `timeout(limit, request).await`, with the errors of the stage.
unfoldable pub timed : {E A : Type 0} → String → (E → Timed (Result String A) × E) → Io E A
unfolding at_stage
timed stage request e = let (r, e') = request e in (at_stage stage r, e')

-- The features that the crate is built with.
pub record Features : Type 0 where
  pub reth_p2p : Bool
  pub consensus_p2p : Bool

abbrev pub block_transport_check : {E A : Type 0} → Features → P2pBlockTransport → Io E A
block_transport_check features execution_polling = fail (
    unsupported_transport
      "execution p2p block polling does not cover mainnet PoS head blocks; use a consensus block transport instead")
block_transport_check features (consensus c) =
    if features.consensus_p2p
    then fail (unsupported_transport "consensus p2p block transport is not implemented yet")
    else fail (feature_disabled "consensus-p2p")

-- What `p2p::connect_with_config` does: the code after its `match` is never reached.
unfoldable pub connect_p2p : {E A : Type 0} → Features → P2pTransportConfig → Io E A
connect_p2p features config =
    if features.reth_p2p
    then (if str_eq config.chain "mainnet"
        then block_transport_check features config.block_transport
        else fail (unsupported_transport "embedded reth p2p currently supports mainnet only"))
    else fail (feature_disabled "reth-p2p")

module _ {E F : Type 0} where
  unfoldable pub connect_erased_provider : Provider E → TrackerConfig F → Io E (System F)
  unfolding timed
  connect_erased_provider provider config = do
    block_sub ← timed "block subscription setup" provider.subscribe_blocks
    pending_sub ←
        timed "pending transaction subscription setup" provider.subscribe_full_pending_transactions
    pure (connected config)

  -- `connect_ws` is the provider builder's.
  unfoldable pub connect_with_builder :
      (String → E → Timed (Result String (Provider E)) × E)
      → String
      → TrackerConfig F
      → Io E (System F)
  unfolding timed connect_erased_provider
  connect_with_builder connect_ws ws config = do
    provider ← timed "websocket connect" (connect_ws ws)
    connect_erased_provider provider config

  -- `MempoolTracker::connect`
  unfoldable pub connect :
      (String → E → Timed (Result String (Provider E)) × E)
      → Features
      → TrackerTransport
      → TrackerConfig F
      → Io E (System F)
  unfolding connect_with_builder connect_p2p
  connect connect_ws features (rpc rpc_config) config =
      connect_with_builder connect_ws rpc_config.ws config
  connect connect_ws features (p2p p2p_config) config = connect_p2p features p2p_config
