-- ===== src/Tests/Tool.antt =====
-- crates/mempooloracle/examples/cli_tool.rs at concrete inputs: a tracker with one transaction, which the
-- ratios in whole percents leave room for.
use Prim.Native.String.{String}
use bulkmail.Prelude.{
  Result, ◌<◌, u64_mod, ℕ, ◌≡◌, ◌≤◌, refl, List, [], ◌∷◌, ◌++◌, map, length, true, false, Bool, ◌+◌,
  ◌*◌, none, some, ok, err, All, arith,
}
use bulkmail.Cli.Snapshot.{Answers, capture, quiet, TelemetrySource, simulated, Snapshot}
use bulkmail.Cli.Snapshot.Packed.{
  Listed, listed, Deals, NoWrap, TooBig, total_gas, last_fee, capture-Packs,
}
use bulkmail.Cli.Snapshot.Tipped.{KeyedFrom, capture-least_tip}
use bulkmail.Mempool.Index.{insert as insert_key}
use bulkmail.Mempool.Queues.{lookup, put, slot_at}
use bulkmail.Mempool.Insert.{insert, make_room, queue_of, place, fill_slot}
use bulkmail.Mempool.Query.{find_tx_by_addr_and_nonce}
use bulkmail.Mempool.Tracker.{run, from_channel, insert_all}
use bulkmail.Cli.App.{App, new_app, Turn, run_app, down, esc}
use bulkmail.Cli.App.Window.{Shows, run_app-window}
use bulkmail.Cli.Args.{DataSource, parse_args, parse_u64, parse_digits}
use bulkmail.Cli.Args.Parsed.{to_args, parse_args-to_args}
use bulkmail.Cli.Args.Chosen.{OnlyLive, parse_args-env}
use bulkmail.Cli.Simulation.{simulate_blockchain, start}
use bulkmail.Cli.Simulation.Rounds.{pendings, rounds}
use bulkmail.Cli.Simulation.Logged.{simulate_blockchain-rounds}
use bulkmail.Cli.Launch.{main}
use bulkmail.Cli.Launch.Refused.{Refused, p2p_config, main-Refused}
use bulkmail.Transport.{Timed, elapsed}
use bulkmail.Transport.Rpc.{Provider}
use bulkmail.Transport.Connect.{Features}
use bulkmail.Tests.Tracking.{percents, small, cheap, full}

abbrev answers : Answers ℕ
answers = record {
  current_base_fee = 10;
  private_flow_ratio = 20;
  last_block_gas_limit = 30000;
  private_flow_ratio_again = 20;
  priority_queue =
      record { fee = 2; addr = 7; nonce = 3 } ∷ record { fee = 1; addr = 7; nonce = 4 } ∷ [];
  find_tx_by_addr_and_nonce = λ addr nonce. some (record cheap { nonce = nonce });
  estimated_blocks_to_confirm = λ id. some 1;
}

abbrev no_telemetry : TelemetrySource
no_telemetry =
    simulated
      (record { pending_seen = 1; block_count = 0; last_block_txs = 0; last_block_gas_used = 0 })

abbrev shown : Snapshot ℕ
shown = capture percents (λ f. f) answers no_telemetry 3

answers-NoWrap :
    All
      (NoWrap shown.usable_capacity)
      (listed answers.find_tx_by_addr_and_nonce answers.priority_queue)
unfolding listed capture
answers-NoWrap = (omega arith, (omega arith, tt))

capture-Packs_example :
    (taken : List Listed) × (left : List Listed) × Deals
      (listed answers.find_tx_by_addr_and_nonce answers.priority_queue)
      taken
      left
    × (shown.gas_used_for_next_block ≡ total_gas taken)
    × (shown.expected_txs ≡ length taken)
    × (shown.min_tip ≡ last_fee 0 taken)
    × All (TooBig shown.usable_capacity shown.gas_used_for_next_block) left
capture-Packs_example =
    capture-Packs percents (λ f. f) answers no_telemetry 3 answers-NoWrap (omega arith)

-- The answers of a tracker that has the one transaction.
abbrev tracked : Answers ℕ
tracked = quiet percents full

abbrev tracked_shown : Snapshot ℕ
tracked_shown = capture percents (λ f. f) tracked no_telemetry 3

tracked-NoWrap :
    All
      (NoWrap tracked_shown.usable_capacity)
      (listed tracked.find_tx_by_addr_and_nonce tracked.priority_queue)
unfolding listed capture find_tx_by_addr_and_nonce run from_channel insert_all insert make_room
    queue_of place fill_slot lookup put slot_at insert_key
tracked-NoWrap = (omega arith, tt)

tracked_few : length tracked.priority_queue < u64_mod
unfolding run from_channel insert_all insert make_room queue_of place fill_slot lookup insert_key
tracked_few = omega arith

capture-least_tip_example :
    (taken : List Listed) × (left : List Listed) × Deals
      (listed tracked.find_tx_by_addr_and_nonce tracked.priority_queue)
      taken
      left
    × (tracked_shown.min_tip ≡ last_fee 0 taken)
    × All (KeyedFrom tracked_shown.min_tip) taken
    × (tracked_shown.gas_used_for_next_block ≡ total_gas taken)
    × All (TooBig tracked_shown.usable_capacity tracked_shown.gas_used_for_next_block) left
capture-least_tip_example =
    capture-least_tip percents (λ f. f) (cheap ∷ []) small [] no_telemetry 3 tracked-NoWrap
      tracked_few

abbrev screen_turns : List (Turn ℕ)
screen_turns =
    record {
      snapshot = shown;
      area_height = 3;
      event = some (record { press = true; code = down; control = false });
      list_rows = 1;
    }
    ∷ record {
      snapshot = shown;
      area_height = 3;
      event = some (record { press = true; code = esc; control = false });
      list_rows = 1;
    }
    ∷ []

run_app-window_example :
    (app : App ℕ) × (seen rest : List (Turn ℕ)) × (run_app screen_turns (new_app 30) ≡ some app)
    × (screen_turns ≡ seen ++ rest)
    × Shows (map (λ t. t.snapshot) seen) app
run_app-window_example = run_app-window 30 screen_turns

forty_two : parse_u64 "42" ≡ some 42
unfolding parse_u64 parse_digits
forty_two = refl

abbrev two_nodes : DataSource
two_nodes = DataSource.p2p "mainnet" ("enode://a" ∷ "enode://b" ∷ []) false

parse_args-to_args_example :
    parse_args none none (to_args "42" two_nodes)
    ≡ ok (record { duration_secs = 42; source = two_nodes })
parse_args-to_args_example = parse_args-to_args "42" 42 two_nodes forty_two

parse_args-env_example : OnlyLive (parse_args none (some "ws://node") ("--simulate" ∷ []))
parse_args-env_example = parse_args-env none (some "ws://node") "ws://node" ("--simulate" ∷ []) refl

simulate_refused :
    parse_args none (some "ws://node") ("--simulate" ∷ [])
    ≡ err "choose either --simulate or --ws-url, not both"
unfolding parse_args
simulate_refused = refl

abbrev looks : List Bool
looks = false ∷ false ∷ false ∷ true ∷ []

simulate_blockchain-rounds_example :
    (r : ℕ) × (k : ℕ) × (k ≤ 10)
    × ((simulate_blockchain looks start).channel.sent ≡ rounds r ++ pendings (10 * r) k)
    × ((simulate_blockchain looks start).telemetry.pending_seen ≡ 10 * r + k)
    × ((simulate_blockchain looks start).telemetry.block_count ≡ r)
simulate_blockchain-rounds_example = simulate_blockchain-rounds looks (omega arith)

abbrev unreachable : String → ℕ → Timed (Result String (Provider ℕ)) × ℕ
unreachable ws e = (elapsed, e)

abbrev all_features : Features
all_features = record { reth_p2p = true; consensus_p2p = true }

main-Refused_example :
    Refused percents unreachable all_features
      (p2p_config "mainnet" [] true)
      "failed to connect mempool oracle p2p transport: "
      3
      (main percents unreachable all_features none none
        (to_args "42" (DataSource.p2p "mainnet" [] true))
        3)
main-Refused_example =
    main-Refused percents unreachable all_features "42" 42 "mainnet" [] true 3 forty_two
