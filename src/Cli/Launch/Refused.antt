-- ===== src/Cli/Launch/Refused.antt =====
-- crates/mempooloracle/examples/cli_tool.rs with crates/mempooloracle/src/transport/p2p.rs: a start over
-- the peer-to-peer network.
use Prim.Native.String.{String, ◌++◌ as str_append}
use bulkmail.Prelude.{ℕ, ◌≡◌, ap, List, Bool, Result, ok, err, none, some}
use bulkmail.Mempool.Block.{FloatOps}
use bulkmail.Transport.{TrackerError, p2p, P2pTransportConfig, consensus, eth2_libp2p, Timed}
use bulkmail.Transport.Rpc.{Provider}
use bulkmail.Transport.Rpc.Tracked.{System}
use bulkmail.Transport.Connect.{Features, connect}
use bulkmail.Transport.Connect.Outcome.{Outcome, Fails, connect-Outcome}
use bulkmail.Cli.Args.{DataSource, parse_u64}
use bulkmail.Cli.Args.Parsed.{to_args, parse_args-to_args}
use bulkmail.Cli.Launch.{Runtime, display, tool_config, or_message, launch, main}

-- What the tool asks for.
abbrev pub p2p_config : String → List String → Bool → P2pTransportConfig
p2p_config chain bootnodes discovery_v4 = record {
  chain = chain;
  bootnodes = bootnodes;
  discovery_v4 = discovery_v4;
  listen_addr = none;
  block_transport = consensus (record { implementation = eth2_libp2p });
}

module _ {E F : Type 0} (ops : FloatOps F)
    (connect_ws : String → E → Timed (Result String (Provider E)) × E) (features : Features) where
  -- An error of the transport, with a message before it, and nothing touched.
  abbrev pub Refused : P2pTransportConfig → String → E → Result String (Runtime F) × E → Type 0
  Refused c message e result =
      (why : TrackerError) × Fails (p2p c) why
      × (result ≡ (err (str_append message (display why)), e))

  or_message-Refused :
      (c : P2pTransportConfig) (message : String) (e : E) (r : Result TrackerError (System F) × E)
      → Outcome connect_ws (tool_config ops) (p2p c) e r
      → Refused c message e (or_message message r)
  or_message-Refused c message e (ok s, e') h = absurd h
  or_message-Refused c message e (err why, e') (fails, same) =
      (why, fails, ap (λ x. (err (str_append message (display why)), x)) same)

  -- With neither variable of the environment set, a tool whose arguments ask for a duration and the
  -- peer-to-peer network always ends at its start with an error, of a feature that is off or of an
  -- unsupported transport, and touches nothing, whatever the chain, the bootnodes, the discovery and
  -- the features it is built with.
  pub main-Refused :
      (text : String) (n : ℕ) (chain : String) (bootnodes : List String) (discovery_v4 : Bool)
      (e : E)
      → parse_u64 text ≡ some n
      → Refused
          (p2p_config chain bootnodes discovery_v4)
          "failed to connect mempool oracle p2p transport: "
          e
          (main ops connect_ws features none none
            (to_args text (DataSource.p2p chain bootnodes discovery_v4))
            e)
  unfolding main launch
  main-Refused text n chain bootnodes discovery_v4 e h =
      let c = p2p_config chain bootnodes discovery_v4 in
      rw (main, parse_args-to_args text n (DataSource.p2p chain bootnodes discovery_v4) h)
        (or_message-Refused c "failed to connect mempool oracle p2p transport: " e
          (connect connect_ws features (p2p c) (tool_config ops) e)
          (connect-Outcome connect_ws (tool_config ops) features (p2p c) e))
