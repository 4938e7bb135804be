-- ===== src/Transport/Connect/Outcome.antt =====
-- crates/mempooloracle/src/lib.rs: what `MempoolTracker::connect` gives, by transport.
use Prim.Native.String.{String}
use text.Mathlib.Text.{◌==◌ as str_eq}
use bulkmail.Prelude.{◌≡◌, refl, Result, ok, err, if_either}
use bulkmail.Mempool.{TrackerConfig}
use bulkmail.Transport.{
  TrackerError, transport, timeout, feature_disabled, unsupported_transport, TrackerTransport, rpc,
  p2p, RpcTransportConfig, P2pTransportConfig, P2pBlockTransport, execution_polling, consensus,
  Timed, elapsed, answered, at_stage,
}
use bulkmail.Transport.Rpc.{Provider}
use bulkmail.Transport.Rpc.Tracked.{System, connected}
use bulkmail.Transport.Connect.{
  Io, ◌>>=◌, pure, then_with, timed, Features, block_transport_check, connect_p2p,
  connect_erased_provider, connect_with_builder, connect,
}

-- The errors of a transport: of a stage of the setup, or of what the build or the code does not have.
abbrev pub Fails : TrackerTransport → TrackerError → Type 0
Fails (rpc c) (timeout stage) = Unit {0}
Fails (rpc c) (transport why) = Unit {0}
Fails (p2p c) (feature_disabled feature) = Unit {0}
Fails (p2p c) (unsupported_transport why) = Unit {0}
Fails _ _ = ⊥

module _ {E F : Type 0} (connect_ws : String → E → Timed (Result String (Provider E)) × E)
    (config : TrackerConfig F) where
  -- The stages of a connection, each in time and answered well, the next on the state the last one left.
  pub record Established (ws : String) (e e' : E) : Type 0 where
    pub provider : Provider E
    pub opened : E
    pub subscribed : E
    pub connects : connect_ws ws e ≡ (answered (ok provider), opened)
    pub subscribes_blocks : provider.subscribe_blocks opened ≡ (answered (ok tt), subscribed)
    pub subscribes_pending :
        provider.subscribe_full_pending_transactions subscribed ≡ (answered (ok tt), e')

  abbrev pub Outcome : TrackerTransport → E → Result TrackerError (System F) × E → Type 0
  Outcome (rpc c) e (ok s, e') = (s ≡ connected config) × Established c.ws e e'
  Outcome (rpc c) e (err why, e') = Fails (rpc c) why × ((last : E) → ¬ Established c.ws e last)
  Outcome (p2p c) e (ok s, e') = ⊥
  Outcome (p2p c) e (err why, e') = Fails (p2p c) why × (e' ≡ e)

  -- What a good answer at a stage is, and that an established connection has it.
  abbrev Answers : {A : Type 0} → (E → Timed (Result String A) × E) → E → Type 0
  Answers {A} request e = (a : A) × (e' : E) × (request e ≡ (answered (ok a), e'))

  -- A rule for a stage of the RPC setup: what follows a good answer, with the answer's equation.
  stage_then :
      {A : Type 0} (c : RpcTransportConfig) (e₀ : E) (stage : String)
      (request : E → Timed (Result String A) × E) (k : A → Io E (System F)) (e : E)
      → ((last : E) → Established c.ws e₀ last → Answers request e)
      → ((a : A) (e' : E) → request e ≡ (answered (ok a), e') → Outcome (rpc c) e₀ (k a e'))
      → (r : Timed (Result String A) × E) → request e ≡ r
      → Outcome (rpc c) e₀ (then_with (at_stage stage r.0, r.1) k)
  unfolding at_stage
  stage_then c e₀ stage request k e needs f (elapsed, e') h =
      (tt, λ last s. let (a, e'', good) = needs last s in cc)
  stage_then c e₀ stage request k e needs f (answered (err why), e') h =
      (tt, λ last s. let (a, e'', good) = needs last s in cc)
  stage_then c e₀ stage request k e needs f (answered (ok a), e') h = f a e' h

  same_provider :
      (c : RpcTransportConfig) (e last : E) (s : Established c.ws e last) (provider : Provider E)
      (e₁ : E)
      → connect_ws c.ws e ≡ (answered (ok provider), e₁)
      → provider.subscribe_blocks e₁ ≡ (answered (ok tt), s.subscribed)
  same_provider c e last s provider e₁ opened =
      let h = s.connects in
      let p : s.provider ≡ provider = cc in
      let q : s.opened ≡ e₁ = cc in rw (← p, ← q) s.subscribes_blocks

  same_subscribed :
      (c : RpcTransportConfig) (e last : E) (s : Established c.ws e last) (provider : Provider E)
      (e₁ e₂ : E)
      → connect_ws c.ws e ≡ (answered (ok provider), e₁)
      → provider.subscribe_blocks e₁ ≡ (answered (ok tt), e₂)
      → provider.subscribe_full_pending_transactions e₂ ≡ (answered (ok tt), last)
  same_subscribed c e last s provider e₁ e₂ opened blocks =
      let h = s.connects in
      let p : s.provider ≡ provider = cc in
      let b = same_provider c e last s provider e₁ opened in
      let q : s.subscribed ≡ e₂ = cc in rw (← p, ← q) s.subscribes_pending

  connect_with_builder-Outcome :
      (c : RpcTransportConfig) (e : E)
      → Outcome (rpc c) e (connect_with_builder connect_ws c.ws config e)
  unfolding connect_with_builder connect_erased_provider timed
  connect_with_builder-Outcome c e =
      stage_then c e "websocket connect" (connect_ws c.ws)
        (λ provider. connect_erased_provider provider config) e
        (λ last s. (s.provider, s.opened, s.connects))
        (λ provider e₁ opened.
          stage_then c e "block subscription setup" provider.subscribe_blocks
            (λ _.
              timed "pending transaction subscription setup"
                provider.subscribe_full_pending_transactions
              >>= λ _. pure (connected config))
            e₁ (λ last s. (tt, s.subscribed, same_provider c e last s provider e₁ opened))
            (λ block_sub e₂ blocks.
              stage_then c e "pending transaction subscription setup"
                provider.subscribe_full_pending_transactions (λ _. pure (connected config)) e₂
                (λ last s. (tt, last, same_subscribed c e last s provider e₁ e₂ opened blocks))
                (λ pending_sub e₃ pending. (
                  refl,
                  record {
                    provider = provider;
                    opened = e₁;
                    subscribed = e₂;
                    connects = opened;
                    subscribes_blocks = blocks;
                    subscribes_pending = pending;
                  },
                ))
                (provider.subscribe_full_pending_transactions e₂) refl)
            (provider.subscribe_blocks e₁) refl)
        (connect_ws c.ws e) refl

  block_transport_check-Outcome :
      (features : Features) (b : P2pBlockTransport) (c : P2pTransportConfig) (e : E)
      → Outcome (p2p c) e (block_transport_check features b e)
  block_transport_check-Outcome features execution_polling c e = (tt, refl)
  block_transport_check-Outcome features (consensus chosen) c e =
      if_either (λ (m : Io E (System F)). Outcome (p2p c) e (m e)) features.consensus_p2p
        (λ _. (tt, refl)) (λ _. (tt, refl))

  connect_p2p-Outcome :
      (features : Features) (c : P2pTransportConfig) (e : E)
      → Outcome (p2p c) e (connect_p2p features c e)
  unfolding connect_p2p
  connect_p2p-Outcome features c e =
      if_either (λ (m : Io E (System F)). Outcome (p2p c) e (m e)) features.reth_p2p
        (λ _.
          if_either (λ (m : Io E (System F)). Outcome (p2p c) e (m e)) (str_eq c.chain "mainnet")
            (λ _. block_transport_check-Outcome features c.block_transport c e) (λ _. (tt, refl)))
        (λ _. (tt, refl))

  -- A connection over JSON-RPC succeeds exactly when the provider connected and then took both
  -- subscriptions, all in time; its system is the started tasks over an empty tracker; when it fails,
  -- the error is a timeout or of the client. A connection over the peer-to-peer network never succeeds,
  -- whatever the features and the configuration: it touches nothing, and its error is a feature that is
  -- off or an unsupported transport.
  pub connect-Outcome :
      (features : Features) (t : TrackerTransport) (e : E)
      → Outcome t e (connect connect_ws features t config e)
  unfolding connect
  connect-Outcome features (rpc c) e = connect_with_builder-Outcome c e
  connect-Outcome features (p2p c) e = connect_p2p-Outcome features c e
