-- ===== src/Cli/App.antt =====
-- crates/mempooloracle/examples/cli_tool.rs: the state of the screen, and a turn of the loop that
-- draws it. `none` is a panic: of `latest`, where there is no snapshot. Errors of the terminal, which end
-- the loop, are left out.
pub mod Scrolled
pub mod Window
use Prim.Native.String.{String}
use text.Mathlib.Text.{◌==◌ as str_eq}
use bulkmail.Prelude.{
  ℕ, ◌-◌, min, max, ltb, List, [], ◌∷◌, ◌++◌, length, Bool, true, false, ◌||◌, ◌&&◌, if◌then◌else◌,
  Option, none, some, add_u64, drop,
}
use bulkmail.Cli.Snapshot.{TxRow, Snapshot}

pub record App (F : Type 0) : Type 0 where
  pub duration_secs : ℕ
  pub snapshots : List (Snapshot F)
  pub tx_scroll : ℕ

abbrev pub new_app : {F : Type 0} → ℕ → App F
new_app duration_secs = record { duration_secs = duration_secs; snapshots = []; tx_scroll = 0 }

-- `last()`
abbrev pub last {ℓ} : {A : Type ℓ} → List A → Option A
last [] = none
last (a ∷ []) = some a
last (a ∷ b ∷ rest) = last (b ∷ rest)

-- A character is the text of it.
pub data KeyCode : Type 0 where
  char : String → KeyCode
  esc : KeyCode
  up : KeyCode
  down : KeyCode
  page_up : KeyCode
  page_down : KeyCode
  other_key : KeyCode

pub record KeyEvent : Type 0 where
  pub press : Bool
  pub code : KeyCode
  pub control : Bool

abbrev pub quits : KeyEvent → Bool
quits key = elim key.code [
  | char c ↦ str_eq c "q" || str_eq c "c" && key.control
  | esc ↦ true
  | up ↦ false
  | down ↦ false
  | page_up ↦ false
  | page_down ↦ false
  | other_key ↦ false
]

unfoldable pub transaction_rows : {F : Type 0} → Snapshot F → ℕ → ℕ
transaction_rows snapshot area_height =
    if ltb 0 (length snapshot.ranked_rows) then max (area_height - 2) 1 else 1

-- A turn draws a snapshot into a pane of some height; an event may come, with the rows of the pane then.
pub record Turn (F : Type 0) : Type 0 where
  pub snapshot : Snapshot F
  pub area_height : ℕ
  pub event : Option KeyEvent
  pub list_rows : ℕ

abbrev pub max_scroll_of : {F : Type 0} → ℕ → Option (Snapshot F) → Option ℕ
max_scroll_of visible_rows none = none
max_scroll_of visible_rows (some s) = some (length s.ranked_rows - max visible_rows 1)

abbrev pub scroll_to : {F : Type 0} → ℕ → Option ℕ → App F → Option (App F)
scroll_to wanted none app = none
scroll_to wanted (some limit) app = some (record app { tx_scroll = min wanted limit })

module _ {F : Type 0} where
  unfoldable pub max_scroll : App F → ℕ → Option ℕ
  max_scroll app visible_rows = max_scroll_of visible_rows (last app.snapshots)

  unfoldable pub clamp_scroll : ℕ → App F → Option (App F)
  unfolding max_scroll
  clamp_scroll visible_rows app = scroll_to app.tx_scroll (max_scroll app visible_rows) app

  unfoldable pub scroll_up : ℕ → App F → App F
  scroll_up amount app = record app { tx_scroll = app.tx_scroll - amount }

  unfoldable pub scroll_down : ℕ → ℕ → App F → Option (App F)
  unfolding max_scroll
  scroll_down amount visible_rows app =
      scroll_to (add_u64 app.tx_scroll amount) (max_scroll app visible_rows) app

  unfoldable pub push_snapshot : Snapshot F → App F → Option (App F)
  unfolding clamp_scroll
  push_snapshot snapshot app =
      let snapshots = app.snapshots ++ snapshot ∷ [] in
      let window =
        if ltb 60 (length snapshots) then drop (length snapshots - 60) snapshots else snapshots in
      clamp_scroll 0 (record app { snapshots = window })

  -- `render_top_transactions`, as far as it changes the state.
  unfoldable pub render : Turn F → App F → Option (App F)
  unfolding transaction_rows clamp_scroll
  render turn app = elim (last app.snapshots) [
    | none ↦ none
    | some latest ↦ clamp_scroll (transaction_rows latest turn.area_height) app
  ]

  -- The answer of a turn says whether the loop goes on.
  abbrev pub on_code : KeyCode → ℕ → App F → Option (App F)
  on_code up list_rows app = some (scroll_up 1 app)
  on_code (char c) list_rows app =
      if str_eq c "k"
      then some (scroll_up 1 app)
      else if str_eq c "j"
      then scroll_down 1 list_rows app
      else some app
  on_code down list_rows app = scroll_down 1 list_rows app
  on_code page_up list_rows app = some (scroll_up (max list_rows 1) app)
  on_code page_down list_rows app = scroll_down (max list_rows 1) list_rows app
  on_code esc list_rows app = some app
  on_code other_key list_rows app = some app

  abbrev pub goes_on : Bool → Option (App F) → Option (App F × Bool)
  goes_on more none = none
  goes_on more (some app) = some (app, more)

  unfoldable pub on_event : Option KeyEvent → ℕ → App F → Option (App F × Bool)
  unfolding scroll_up scroll_down
  on_event none list_rows app = some (app, true)
  on_event (some key) list_rows app =
      if key.press
      then (if quits key then some (app, false) else goes_on true (on_code key.code list_rows app))
      else some (app, true)

  unfoldable pub run_turn : Turn F → App F → Option (App F × Bool)
  unfolding push_snapshot render on_event
  run_turn turn app = elim (push_snapshot turn.snapshot app) [
    | none ↦ none
    | some pushed ↦ elim (render turn pushed) [
      | none ↦ none
      | some drawn ↦ on_event turn.event turn.list_rows drawn
    ]
  ]

  -- `run_app`, over the turns that come before the deadline and the stop.
  unfoldable pub run_app : List (Turn F) → App F → Option (App F)
  unfolding run_turn
  run_app [] app = some app
  run_app (turn ∷ turns) app = elim (run_turn turn app) [
    | none ↦ none
    | some (app', more) ↦ let rest = run_app turns app' in if more then rest else some app'
  ]
