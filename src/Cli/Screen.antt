-- ===== src/Cli/Screen.antt =====
-- crates/mempooloracle/examples/cli_tool.rs: what the screen shows, without its styles and with the
-- heights that the terminal library's layout gives. A text is the list of its pieces.
pub mod Listed
use Prim.Native.String.{String}
use mathlib.Core.List.{reverse}
use bulkmail.Prelude.{
  ℕ, min, ltb, ◌==◌, List, [], ◌∷◌, map, length, take, drop, if◌then◌else◌, Option, none, some,
  add_u64, u64_mod, ◌-◌,
}
use bulkmail.Cli.Snapshot.{TxRow, Snapshot}
use bulkmail.Cli.App.{App, last, transaction_rows, clamp_scroll}

-- A literal, a number, a number in a width, two hexadecimal digits, or an `f64` with one decimal.
pub data Piece (F : Type 0) : Type 0 where
  lit : String → Piece F
  num : ℕ → Piece F
  padded : ℕ → ℕ → Piece F
  hex : ℕ → Piece F
  tenths : F → Piece F

abbrev pub Line : Type 0 → Type 0
Line F = List (Piece F)

pub record Gauge (F : Type 0) : Type 0 where
  pub title : String
  pub percent : ℕ
  pub label : Line F

pub record Bar : Type 0 where
  pub value : ℕ
  pub label : ℕ

pub record Pane (F : Type 0) : Type 0 where
  pub title : Line F
  pub items : List (Line F)

-- Each bar with its number, from `n` on.
unfoldable pub bars : {F : Type 0} → ℕ → List (Snapshot F) → List Bar
bars n [] = []
bars n (s ∷ snapshots) =
    record { value = min s.base_fee (u64_mod - 1); label = n } ∷ bars (add_u64 n 1) snapshots

module _ {F : Type 0} where
  unfoldable pub render_header : ℕ → Snapshot F → Line F
  render_header duration_secs s =
      lit "Mempool Oracle"
      ∷ lit "  "
      ∷ lit (if duration_secs == 0 then "live until Ctrl-C" else "timed capture")
      ∷ lit "  "
      ∷ lit "uptime "
      ∷ num s.elapsed_secs
      ∷ lit "s"
      ∷ lit "  "
      ∷ lit "blocks "
      ∷ num s.block_count
      ∷ lit "  "
      ∷ lit "pending seen "
      ∷ num s.pending_seen
      ∷ []

  -- The percent is cut to 16 bits after the minimum, which changes nothing.
  unfoldable pub render_gauges : Snapshot F → List (Gauge F)
  render_gauges s =
      record {
        title = "Private Flow";
        percent = min s.private_flow_percent 100;
        label = tenths s.private_flow ∷ lit "%" ∷ [];
      }
      ∷ record {
        title = "Next Block Fill";
        percent = min s.next_block_fill_percent 100;
        label = num s.next_block_fill_percent ∷ lit "%" ∷ [];
      }
      ∷ record {
        title = "Marketable Set";
        percent = min s.marketable_utilization 100;
        label = num s.marketable_count ∷ lit " tracked" ∷ [];
      }
      ∷ []

  unfoldable pub render_metrics : Snapshot F → List (Line F)
  render_metrics s =
      (lit "Base fee: " ∷ num s.base_fee ∷ [])
      ∷ (lit "Min tip next block: " ∷ num s.min_tip ∷ [])
      ∷ (lit "Expected txs next block: " ∷ num s.expected_txs ∷ [])
      ∷ (lit "Gas in next block set: " ∷ num s.gas_used_for_next_block ∷ [])
      ∷ (lit "Usable capacity: " ∷ num s.usable_capacity ∷ [])
      ∷ (lit "Last block gas used: " ∷ num s.last_block_gas_used ∷ [])
      ∷ (lit "Last block txs: " ∷ num s.last_block_txs ∷ [])
      ∷ (lit "Tracker queue depth: " ∷ num s.marketable_count ∷ [])
      ∷ []

  unfoldable pub render_base_fee_chart : List (Snapshot F) → List Bar
  unfolding bars
  render_base_fee_chart snapshots = bars 1 (reverse (take 10 (reverse snapshots)))

  unfoldable pub row_line : TxRow → Line F
  row_line row =
      padded 4 row.nonce
      ∷ lit " "
      ∷ lit "eff "
      ∷ padded 3 row.effective_priority_fee
      ∷ lit " "
      ∷ lit "tip "
      ∷ padded 3 row.priority_fee
      ∷ lit " "
      ∷ lit "max "
      ∷ padded 3 row.max_fee
      ∷ lit " "
      ∷ lit "gas "
      ∷ padded 6 row.gas_limit
      ∷ lit " "
      ∷ lit "eta "
      ∷ padded 2 row.eta_blocks
      ∷ lit " "
      ∷ hex row.sender_prefix.0
      ∷ hex row.sender_prefix.1
      ∷ lit ".."
      ∷ []

  -- The title of the list, where it shows the rows from `first` to `final`.
  unfoldable pub title_of : Snapshot F → ℕ → ℕ → Line F
  title_of s first final =
      if length s.ranked_rows == 0
      then lit "Ranked Pending Transactions [0 of " ∷ num s.marketable_count ∷ lit "]" ∷ []
      else if ltb (length s.ranked_rows) s.marketable_count
      then lit "Ranked Pending Transactions ["
        ∷ num first
        ∷ lit "-"
        ∷ num final
        ∷ lit " of "
        ∷ num s.marketable_count
        ∷ lit " | sampled top "
        ∷ num (length s.ranked_rows)
        ∷ lit "]"
        ∷ []
      else lit "Ranked Pending Transactions ["
        ∷ num first
        ∷ lit "-"
        ∷ num final
        ∷ lit " of "
        ∷ num s.marketable_count
        ∷ lit "]"
        ∷ []

  unfoldable pub items_of : Snapshot F → ℕ → ℕ → List (Line F)
  unfolding row_line
  items_of s scroll visible_rows =
      if length s.ranked_rows == 0
      then (lit "No marketable transactions yet." ∷ []) ∷ []
      else map row_line (take visible_rows (drop scroll s.ranked_rows))

  -- The pane of the snapshot `s`, at a scroll.
  unfoldable pub pane_of : Snapshot F → ℕ → ℕ → Pane F
  unfolding title_of items_of
  pane_of s scroll visible_rows = record {
    title =
        title_of s (add_u64 scroll 1) (min (add_u64 scroll visible_rows) (length s.ranked_rows));
    items = items_of s scroll visible_rows;
  }

  -- The pane after the scroll was clamped.
  abbrev pub with_pane : Snapshot F → ℕ → Option (App F) → Option (App F × Pane F)
  with_pane latest visible_rows none = none
  with_pane latest visible_rows (some app) = some (app, pane_of latest app.tx_scroll visible_rows)

  unfoldable pub render_top_transactions : ℕ → App F → Option (App F × Pane F)
  unfolding transaction_rows clamp_scroll pane_of
  render_top_transactions area_height app = elim (last app.snapshots) [
    | none ↦ none
    | some latest ↦
        let visible_rows = transaction_rows latest area_height in
        with_pane latest visible_rows (clamp_scroll visible_rows app)
  ]

  unfoldable pub render_footer : ℕ → Line F
  render_footer duration_secs =
      lit (
        if duration_secs == 0
        then "Up/Down or j/k scroll txs. PgUp/PgDn jump. Ctrl-C, q, or Esc quits."
        else "Timed run active. Up/Down or j/k scroll txs. Ctrl-C, q, or Esc exits early.")
      ∷ []

pub record Frame (F : Type 0) : Type 0 where
  pub header : Line F
  pub gauges : List (Gauge F)
  pub metrics : List (Line F)
  pub chart : List Bar
  pub transactions : Pane F
  pub footer : Line F

module _ {F : Type 0} where
  -- A frame whose pane of transactions has a height.
  unfoldable pub render : ℕ → App F → Option (App F × Frame F)
  unfolding render_header render_gauges render_metrics render_base_fee_chart render_top_transactions
      render_footer
  render area_height app = elim (last app.snapshots) [
    | none ↦ none
    | some latest ↦ elim (render_top_transactions area_height app) [
      | none ↦ none
      | some (app', pane) ↦ some (
        app',
        record {
          header = render_header app.duration_secs latest;
          gauges = render_gauges latest;
          metrics = render_metrics latest;
          chart = render_base_fee_chart app.snapshots;
          transactions = pane;
          footer = render_footer app.duration_secs;
        },
      )
    ]
  ]
