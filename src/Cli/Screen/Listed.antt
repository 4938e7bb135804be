-- ===== src/Cli/Screen/Listed.antt =====
-- crates/mempooloracle/examples/cli_tool.rs: the rows and the bars that a frame shows.
use bulkmail.Prelude.{
  take-min, reverse-take-reverse, ℕ, ◌≡◌, ◌≤◌, ◌<◌, ◌+◌, ◌-◌, ◌^◌, min, max, refl, sym, ap, ◌∙◌,
  List, map, length, take, drop, some, false, arith, length-take, length-map, length-drop, add_u64,
  ◌==◌,
}
use bulkmail.Cli.Snapshot.{TxRow, Snapshot}
use bulkmail.Cli.App.{App, Turn, last, transaction_rows, clamp_scroll, max_scroll, render as redraw}
use bulkmail.Cli.Screen.{
  Pane, Frame, bars, row_line, title_of, items_of, pane_of, render_base_fee_chart,
  render_top_transactions, with_pane, render, render_header, render_gauges, render_metrics,
  render_footer,
}

module _ {F : Type 0} (s : Snapshot F) where
  -- The rows from `first` to `final`, counted from 1.
  abbrev pub rows_from_to : ℕ → ℕ → List TxRow
  rows_from_to first final = take (final + 1 - first) (drop (first - 1) s.ranked_rows)

  -- What a frame lists of the snapshot.
  abbrev pub Lists : ℕ → ℕ → ℕ → Pane F → Type 0
  Lists visible_rows first final pane =
      (1 ≤ first)
      × (first ≤ final)
      × (final ≤ length s.ranked_rows)
      × (pane.title ≡ title_of s first final)
      × (pane.items ≡ map row_line (rows_from_to first final))
      × (length pane.items ≡ min visible_rows (length s.ranked_rows))

  pane_of-Lists :
      (scroll visible_rows : ℕ)
      → 1 ≤ visible_rows
      → visible_rows < 2 ^ 16
      → 1 ≤ length s.ranked_rows
      → length s.ranked_rows < 2 ^ 63
      → scroll ≤ length s.ranked_rows - visible_rows
      → Lists visible_rows
          (scroll + 1)
          (min (scroll + visible_rows) (length s.ranked_rows))
          (pane_of s scroll visible_rows)
  unfolding pane_of items_of
  pane_of-Lists scroll v pos low rows few within =
      let size = length s.ranked_rows in
      let some_rows : (size == 0) ≡ false = ground arith in
      let first : add_u64 scroll 1 ≡ scroll + 1 = omega arith in
      let final : add_u64 scroll v ≡ scroll + v = omega arith in
      let cut : min v (size - scroll) ≡ min (scroll + v) size + 1 - (scroll + 1) =
        omega (arith, within, rows) in
      let start : scroll + 1 - 1 ≡ scroll = omega arith in
      let rest = length-drop scroll s.ranked_rows in
      let shown : take v (drop scroll s.ranked_rows)
          ≡ rows_from_to (scroll + 1) (min (scroll + v) size) =
        take-min v (drop scroll s.ranked_rows)
        ∙ ap (λ k. take (min v k) (drop scroll s.ranked_rows)) rest
        ∙ ap (λ k. take k (drop scroll s.ranked_rows)) cut
        ∙ ap (λ k. take (min (scroll + v) size + 1 - (scroll + 1)) (drop k s.ranked_rows))
            (sym start) in
      let items : items_of s scroll v
          ≡ map row_line (rows_from_to (scroll + 1) (min (scroll + v) size)) =
        rw (some_rows, items_of) (ap (map row_line) shown) in
      (
        omega arith,
        omega (arith, within, rows, pos),
        omega arith,
        ap (λ k. title_of s k (min (add_u64 scroll v) size)) first
            ∙ ap (λ k. title_of s (scroll + 1) (min k size)) final,
        items,
        rw (some_rows, items_of)
            (length-map row_line (take v (drop scroll s.ranked_rows))
              ∙ omega (arith, length-take v (drop scroll s.ranked_rows), rest, within)),
      )

module _ {F : Type 0} where
  -- The frame of an app whose last snapshot has rows.
  abbrev pub Shown : Turn F → Snapshot F → App F → Type 0
  Shown turn s app =
      let v = max (turn.area_height - 2) 1 in
      (app' : App F) × (frame : Frame F) × (render turn.area_height app ≡ some (app', frame))
      × (redraw turn app ≡ some app')
      × (app'.snapshots ≡ app.snapshots)
      × Lists s v (app'.tx_scroll + 1) (min (app'.tx_scroll + v) (length s.ranked_rows))
          frame.transactions
      × (frame.chart ≡ bars 1 (drop (length app.snapshots - 10) app.snapshots))

  clamped :
      (s : Snapshot F) (app : App F) (visible_rows : ℕ)
      → last app.snapshots ≡ some s
      → clamp_scroll visible_rows app
        ≡ some (record app {
          tx_scroll = min app.tx_scroll (length s.ranked_rows - max visible_rows 1);
        })
  unfolding clamp_scroll max_scroll
  clamped s app visible_rows h = rw (h, clamp_scroll) refl

  transaction_rows-some :
      (s : Snapshot F) (area_height : ℕ)
      → 1 ≤ length s.ranked_rows
      → transaction_rows s area_height ≡ max (area_height - 2) 1
  unfolding transaction_rows
  transaction_rows-some s area_height rows = ground arith

  render_top_transactions-pane_of :
      (area_height : ℕ) (s : Snapshot F) (app : App F)
      → last app.snapshots ≡ some s
      → 1 ≤ length s.ranked_rows
      → let v = max (area_height - 2) 1 in
        let scroll = min app.tx_scroll (length s.ranked_rows - max v 1) in
        render_top_transactions area_height app
        ≡ some (record app { tx_scroll = scroll }, pane_of s scroll v)
  unfolding render_top_transactions
  render_top_transactions-pane_of area_height s app h rows =
      let v = max (area_height - 2) 1 in
      rw (h, render_top_transactions)
        (ap (λ k. with_pane s k (clamp_scroll k app)) (transaction_rows-some s area_height rows)
          ∙ ap (with_pane s v) (clamped s app v h))

  redraw-clamped :
      (turn : Turn F) (s : Snapshot F) (app : App F)
      → last app.snapshots ≡ some s
      → 1 ≤ length s.ranked_rows
      → redraw turn app
        ≡ some (record app {
          tx_scroll =
              min app.tx_scroll (length s.ranked_rows - max (max (turn.area_height - 2) 1) 1);
        })
  unfolding redraw
  redraw-clamped turn s app h rows =
      rw (h, redraw)
        (ap (λ k. clamp_scroll k app) (transaction_rows-some s turn.area_height rows)
          ∙ clamped s app (max (turn.area_height - 2) 1) h)

  -- For a pane of any height, and an app whose last snapshot has rows, fewer than 2^63: drawing
  -- succeeds, keeps the snapshots and leaves the app as a turn of the loop has it; the title names the rows from the first to the last shown,
  -- which are rows of the snapshot; the lines are exactly those rows, in their order, and as many as
  -- the pane has room for, or all where they are fewer; and the bars are the base fees of the last
  -- ten snapshots, the oldest first, numbered from 1.
  pub render-Shown :
      (turn : Turn F) (s : Snapshot F) (app : App F)
      → turn.area_height < 2 ^ 16
      → last app.snapshots ≡ some s
      → 1 ≤ length s.ranked_rows
      → length s.ranked_rows < 2 ^ 63
      → Shown turn s app
  unfolding render render_base_fee_chart
  render-Shown turn s app low h rows few =
      let v = max (turn.area_height - 2) 1 in
      let scroll = min app.tx_scroll (length s.ranked_rows - max v 1) in
      let app' : App F = record app { tx_scroll = scroll } in
      let frame : Frame F = record {
        header = render_header app.duration_secs s;
        gauges = render_gauges s;
        metrics = render_metrics s;
        chart = render_base_fee_chart app.snapshots;
        transactions = pane_of s scroll v;
        footer = render_footer app.duration_secs;
      } in
      (
        app',
        frame,
        rw (h, render)
            (rw (render_top_transactions-pane_of turn.area_height s app h rows, render) refl),
        redraw-clamped turn s app h rows,
        refl,
        pane_of-Lists s scroll v (omega arith) (omega (arith, low)) rows few (omega arith),
        ap (bars 1) (reverse-take-reverse 10 app.snapshots),
      )
