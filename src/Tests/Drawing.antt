-- ===== src/Tests/Drawing.antt =====
-- crates/mempooloracle/examples/cli_tool.rs: a frame, and lines of the plain output.
use bulkmail.Prelude.{ℕ, ◌≡◌, refl, List, [], ◌∷◌, false, none, some, arith}
use bulkmail.Cli.Snapshot.{TxRow, Snapshot}
use bulkmail.Cli.App.{App, Turn}
use bulkmail.Cli.Screen.Listed.{Shown, render-Shown}
use bulkmail.Cli.Plaintext.{Turn as PlainTurn, Output, run_plaintext}
use bulkmail.Cli.Plaintext.Paced.{Paced, run_plaintext-Paced}

abbrev row : TxRow
row = record {
  nonce = 3;
  effective_priority_fee = 2;
  priority_fee = 2;
  max_fee = 30;
  gas_limit = 21000;
  eta_blocks = 0;
  sender_prefix = (171, 205);
}

-- Three rows of four marketable transactions.
abbrev captured : Snapshot ℕ
captured = record {
  elapsed_secs = 5;
  base_fee = 12;
  private_flow = 20;
  private_flow_percent = 20;
  min_tip = 2;
  expected_txs = 3;
  gas_used_for_next_block = 63000;
  usable_capacity = 100000;
  next_block_fill_percent = 63;
  marketable_count = 4;
  marketable_utilization = 0;
  block_count = 1;
  pending_seen = 4;
  last_block_txs = 0;
  last_block_gas_used = 0;
  ranked_rows = row ∷ row ∷ row ∷ [];
}

-- Scrolled too far for a pane of two rows.
abbrev scrolled : App ℕ
scrolled = record { duration_secs = 0; snapshots = captured ∷ captured ∷ []; tx_scroll = 2 }

abbrev short_pane : Turn ℕ
short_pane = record { snapshot = captured; area_height = 4; event = none; list_rows = 2 }

render-Shown_example : Shown short_pane captured scrolled
render-Shown_example =
    render-Shown short_pane captured scrolled (omega arith) refl (omega arith) (omega arith)

abbrev quick : PlainTurn ℕ
quick = record {
  stop = false;
  now = 9000;
  looked = 9000;
  printed = 9001;
  rendered = 9001;
  snapshot = captured;
}

abbrev late : PlainTurn ℕ
late = record quick { now = 9600; looked = 9600; printed = 9601; rendered = 9602 }

run_plaintext-Paced_example :
    (outs : List (Output ℕ)) × (run_plaintext 2 9000 9000 (quick ∷ quick ∷ late ∷ []) ≡ some outs)
    × Paced (some 11000) 8000 outs
run_plaintext-Paced_example =
    run_plaintext-Paced 2 9000 9000 (quick ∷ quick ∷ late ∷ []) (omega arith) (omega arith)
