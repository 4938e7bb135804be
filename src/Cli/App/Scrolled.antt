-- ===== src/Cli/App/Scrolled.antt =====
-- crates/mempooloracle/examples/cli_tool.rs: the scroll of the screen.
use text.Mathlib.Text.{◌==◌ as str_eq}
use bulkmail.Prelude.{
  ℕ, ◌≡◌, ◌≤◌, ◌-◌, min, max, refl, length, Bool, true, false, Option, none, some, arith, if_either,
  add_u64,
}
use bulkmail.Cli.Snapshot.{Snapshot}
use bulkmail.Cli.App.{
  App, last, KeyEvent, KeyCode, char, esc, up, down, page_up, page_down, other_key, Turn,
  transaction_rows, scroll_to, max_scroll, clamp_scroll, scroll_up, scroll_down, render, on_code,
  on_event, goes_on, quits,
}

module _ {F : Type 0} where
  -- A step that keeps the snapshots, whose last is `s`, and leaves the scroll within its rows.
  abbrev pub Keeps : Snapshot F → App F → Option (App F) → Type 0
  Keeps s app result =
      (app' : App F) × (result ≡ some app')
      × (app'.snapshots ≡ app.snapshots)
      × (app'.tx_scroll ≤ length s.ranked_rows - 1)

  abbrev pub KeepsTurn : Snapshot F → App F → Option (App F × Bool) → Type 0
  KeepsTurn s app result =
      (app' : App F) × (more : Bool) × (result ≡ some (app', more))
      × (app'.snapshots ≡ app.snapshots)
      × (app'.tx_scroll ≤ length s.ranked_rows - 1)

  pub scroll_to-Keeps :
      (s : Snapshot F) (app : App F) (wanted limit : ℕ)
      → limit ≤ length s.ranked_rows - 1
      → (result : Option ℕ) → result ≡ some limit
      → Keeps s app (scroll_to wanted result app)
  scroll_to-Keeps s app wanted limit low none e = absurd (cc)
  scroll_to-Keeps s app wanted limit low (some n) e =
      let same : n ≡ limit = cc in
      (record app { tx_scroll = min wanted n }, refl, refl, omega (arith, low, same))

  max_scroll-last :
      (s : Snapshot F) (app : App F) (visible_rows : ℕ)
      → last app.snapshots ≡ some s
      → max_scroll app visible_rows ≡ some (length s.ranked_rows - max visible_rows 1)
  unfolding max_scroll
  max_scroll-last s app visible_rows h = rw (max_scroll, h) refl

  pub clamp_scroll-Keeps :
      (s : Snapshot F) (app : App F) (visible_rows : ℕ)
      → last app.snapshots ≡ some s
      → Keeps s app (clamp_scroll visible_rows app)
  unfolding clamp_scroll
  clamp_scroll-Keeps s app visible_rows h =
      scroll_to-Keeps s app app.tx_scroll (length s.ranked_rows - max visible_rows 1) (omega arith)
        (max_scroll app visible_rows) (max_scroll-last s app visible_rows h)

  scroll_down-Keeps :
      (s : Snapshot F) (app : App F) (amount visible_rows : ℕ)
      → last app.snapshots ≡ some s
      → Keeps s app (scroll_down amount visible_rows app)
  unfolding scroll_down
  scroll_down-Keeps s app amount visible_rows h =
      scroll_to-Keeps s app (add_u64 app.tx_scroll amount)
        (length s.ranked_rows - max visible_rows 1) (omega arith) (max_scroll app visible_rows)
        (max_scroll-last s app visible_rows h)

  same-Keeps :
      (s : Snapshot F) (app : App F)
      → app.tx_scroll ≤ length s.ranked_rows - 1
      → Keeps s app (some app)
  same-Keeps s app low = (app, refl, refl, low)

  scroll_up-Keeps :
      (s : Snapshot F) (app : App F) (amount : ℕ)
      → app.tx_scroll ≤ length s.ranked_rows - 1
      → Keeps s app (some (scroll_up amount app))
  unfolding scroll_up
  scroll_up-Keeps s app amount low = (scroll_up amount app, refl, refl, omega (arith, low))

  on_code-Keeps :
      (s : Snapshot F) (app : App F) (code : KeyCode) (list_rows : ℕ)
      → last app.snapshots ≡ some s
      → app.tx_scroll ≤ length s.ranked_rows - 1
      → Keeps s app (on_code code list_rows app)
  on_code-Keeps s app (char c) list_rows h low =
      if_either (Keeps s app) (str_eq c "k") (λ _. scroll_up-Keeps s app 1 low)
        (λ _.
          if_either (Keeps s app) (str_eq c "j") (λ _. scroll_down-Keeps s app 1 list_rows h)
            (λ _. same-Keeps s app low))
  on_code-Keeps s app up list_rows h low = scroll_up-Keeps s app 1 low
  on_code-Keeps s app down list_rows h low = scroll_down-Keeps s app 1 list_rows h
  on_code-Keeps s app page_up list_rows h low = scroll_up-Keeps s app (max list_rows 1) low
  on_code-Keeps s app page_down list_rows h low =
      scroll_down-Keeps s app (max list_rows 1) list_rows h
  on_code-Keeps s app esc list_rows h low = same-Keeps s app low
  on_code-Keeps s app other_key list_rows h low = same-Keeps s app low

  goes_on-KeepsTurn :
      (s : Snapshot F) (app : App F) (result : Option (App F))
      → Keeps s app result
      → KeepsTurn s app (goes_on true result)
  goes_on-KeepsTurn s app none (app', e, same, low) = absurd (cc)
  goes_on-KeepsTurn s app (some a) (app', e, same, low) =
      let f : some a ≡ some app' = e in let g : a ≡ app' = cc in (app', true, rw g refl, same, low)

  pub on_event-KeepsTurn :
      (s : Snapshot F) (app : App F) (event : Option KeyEvent) (list_rows : ℕ)
      → last app.snapshots ≡ some s
      → app.tx_scroll ≤ length s.ranked_rows - 1
      → KeepsTurn s app (on_event event list_rows app)
  unfolding on_event
  on_event-KeepsTurn s app none list_rows h low = (app, true, refl, refl, low)
  on_event-KeepsTurn s app (some key) list_rows h low =
      if_either (KeepsTurn s app) key.press
        (λ _.
          if_either (KeepsTurn s app) (quits key) (λ _. (app, false, refl, refl, low))
            (λ _.
              goes_on-KeepsTurn s app (on_code key.code list_rows app)
                (on_code-Keeps s app key.code list_rows h low)))
        (λ _. (app, true, refl, refl, low))

  pub render-Keeps :
      (turn : Turn F) (s : Snapshot F) (app : App F)
      → last app.snapshots ≡ some s
      → Keeps s app (render turn app)
  unfolding render
  render-Keeps turn s app h = drawn (last app.snapshots) h
    where
      drawn :
          (o : Option (Snapshot F))
          → o ≡ some s
          → Keeps s app (elim o [
            | none ↦ none
            | some latest ↦ clamp_scroll (transaction_rows latest turn.area_height) app
          ])
      drawn none e = absurd (cc)
      drawn (some latest) e = clamp_scroll-Keeps s app (transaction_rows latest turn.area_height) h
