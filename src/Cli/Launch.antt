-- ===== src/Cli/Launch.antt =====
-- crates/mempooloracle/examples/cli_tool.rs: the start of the tool, up to the first screen.
pub mod Refused
use Prim.Native.String.{String, ◌++◌ as str_append}
use bulkmail.Prelude.{ℕ, ◌≡◌, refl, [], List, Result, ok, err, Option, none, some}
use bulkmail.Mempool.{TrackerConfig, MempoolInner}
use bulkmail.Mempool.Block.{FloatOps}
use bulkmail.Mempool.Tracker.{from_channel}
use bulkmail.Transport.{
  TrackerError, transport, timeout, setup, feature_disabled, unsupported_transport,
  TrackerTransport, rpc, p2p, consensus, eth2_libp2p, Timed,
}
use bulkmail.Transport.Rpc.{Provider}
use bulkmail.Transport.Rpc.Tracked.{System}
use bulkmail.Transport.Connect.{Features, connect}
use bulkmail.Transport.Connect.Outcome.{Outcome, connect-Outcome}
use bulkmail.Cli.Args.{CliArgs, DataSource, parse_args}
use bulkmail.Cli.Simulation as Simulation

-- `Display` of the errors.
unfoldable pub display : TrackerError → String
display (transport why) = str_append "alloy transport error: " why
display (timeout stage) = str_append "timed out during " stage
display (setup why) = str_append "transport setup failed: " why
display (feature_disabled feature) = str_append "feature `" (str_append feature "` is not enabled")
display (unsupported_transport why) = str_append "transport unsupported: " why

abbrev pub tool_config : {F : Type 0} → FloatOps F → TrackerConfig F
tool_config ops = record {
  initial_base_fee = 10;
  global_capacity = 1000;
  per_account_capacity = 100;
  private_flow_prior = ops.tenth;
}

-- The connected system, or a tracker and the simulated chain that feeds it.
pub data Runtime (F : Type 0) : Type 0 where
  live : System F → Runtime F
  simulated : MempoolInner F → Simulation.Simulation → Runtime F

abbrev pub or_message :
    {E F : Type 0} → String → Result TrackerError (System F) × E → Result String (Runtime F) × E
or_message message (ok system, e) = (ok (live system), e)
or_message message (err why, e) = (err (str_append message (display why)), e)

module _ {E F : Type 0} (ops : FloatOps F)
    (connect_ws : String → E → Timed (Result String (Provider E)) × E) (features : Features) where
  unfoldable pub launch : DataSource → E → Result String (Runtime F) × E
  unfolding display
  launch (DataSource.live ws_url) e =
      or_message "failed to connect mempool oracle: "
        (connect connect_ws features (rpc (record { ws = ws_url })) (tool_config ops) e)
  launch (DataSource.p2p chain bootnodes discovery_v4) e =
      or_message "failed to connect mempool oracle p2p transport: " (
        connect connect_ws features
          (p2p (record {
            chain = chain;
            bootnodes = bootnodes;
            discovery_v4 = discovery_v4;
            listen_addr = none;
            block_transport = consensus (record { implementation = eth2_libp2p });
          }))
          (tool_config ops) e)
  launch DataSource.simulated e =
      (ok (simulated (from_channel [] (tool_config ops)) Simulation.start), e)

  -- `main`, until it has a runtime.
  abbrev pub launch_parsed : Result String CliArgs → E → Result String (Runtime F) × E
  launch_parsed (ok args) e = launch args.source e
  launch_parsed (err why) e = (err why, e)

  unfoldable pub main :
      Option String → Option String → List String → E → Result String (Runtime F) × E
  unfolding launch
  main mempooloracle_ws_url eth_ws_url args =
      launch_parsed (parse_args mempooloracle_ws_url eth_ws_url args)
