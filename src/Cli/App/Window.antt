-- ===== src/Cli/App/Window.antt =====
-- crates/mempooloracle/examples/cli_tool.rs: the snapshots that the screen keeps, and its scroll.
use mathlib.Core.List.{append_assoc, append-nil}
use bulkmail.Prelude.{
  length-drop, ℕ, ◌≡◌, ◌≤◌, ◌+◌, ◌-◌, min, refl, sym, ap, ◌∙◌, ltb, zero, suc, List, [], ◌∷◌, ◌++◌,
  map, length, length-append, Bool, true, false, Option, none, some, arith, drop, if_either,
  Bool-cases, inl, inr, if◌then◌else◌,
}
use bulkmail.Cli.Snapshot.{Snapshot}
use bulkmail.Cli.App.{App, new_app, last, Turn, push_snapshot, run_turn, run_app}
use bulkmail.Cli.App.Scrolled.{clamp_scroll-Keeps, render-Keeps, on_event-KeepsTurn}

module _ {ℓ} {A : Type ℓ} where
  last-snoc : (xs : List A) (a : A) → last (xs ++ a ∷ []) ≡ some a
  last-snoc [] a = refl
  last-snoc (x ∷ []) a = refl
  last-snoc (x ∷ y ∷ xs) a = last-snoc (y ∷ xs) a

  last-drop : (n : ℕ) (xs : List A) (a : A) → n ≤ length xs → last (drop n (xs ++ a ∷ [])) ≡ some a
  last-drop zero xs a h = last-snoc xs a
  last-drop (suc n) [] a h = absurd (omega (arith, h))
  last-drop (suc n) (x ∷ xs) a h = last-drop n xs a (omega (arith, h))

  drop-suffix : (n : ℕ) (xs : List A) → (front : List A) × (front ++ drop n xs ≡ xs)
  drop-suffix zero xs = ([], refl)
  drop-suffix (suc n) [] = ([], refl)
  drop-suffix (suc n) (x ∷ xs) = let (front, e) = drop-suffix n xs in (x ∷ front, ap (λ t. x ∷ t) e)

ltb→lt : (a b : ℕ) → ltb a b ≡ true → a + 1 ≤ b
ltb→lt a b h = ground arith

ltb→ge : (a b : ℕ) → ltb a b ≡ false → b ≤ a
ltb→ge a b h = ground arith

-- What `push_snapshot` keeps of the snapshots.
abbrev window {ℓ} : {A : Type ℓ} → List A → List A
window xs = if ltb 60 (length xs) then drop (length xs - 60) xs else xs

abbrev pub InRange : {F : Type 0} → Option (Snapshot F) → ℕ → Type 0
InRange none scroll = scroll ≡ 0
InRange (some s) scroll = scroll ≤ length s.ranked_rows - 1

module _ {F : Type 0} where
  -- The screen after it was given some snapshots: it has the last 60 of them, and its scroll is within
  -- the rows of the last one.
  abbrev pub Shows : List (Snapshot F) → App F → Type 0
  Shows given app =
      (older : List (Snapshot F)) × (older ++ app.snapshots ≡ given)
      × (length app.snapshots ≡ min 60 (length given))
      × InRange (last app.snapshots) app.tx_scroll

abbrev Windows {ℓ} : {A : Type ℓ} → List A → A → List A → Type ℓ
Windows {A} xs a kept =
    (last kept ≡ some a)
    × ((front : List A) × (front ++ kept ≡ xs ++ a ∷ []))
    × (length kept ≡ min 60 (length xs + 1))

window-Windows {ℓ} : {A : Type ℓ} (xs : List A) (a : A) → Windows xs a (window (xs ++ a ∷ []))
window-Windows xs a =
    let all = xs ++ a ∷ [] in
    let size = length-append xs (a ∷ []) in
    if_either (Windows xs a) (ltb 60 (length all))
      (λ more. (
        last-drop (length all - 60) xs a (omega (arith, size)),
        drop-suffix (length all - 60) all,
        omega (arith, length-drop (length all - 60) all, size, ltb→lt 60 (length all) more),
      ))
      (λ few. (last-snoc xs a, ([], refl), omega (arith, size, ltb→ge 60 (length all) few)))

module _ {F : Type 0} where
  -- The scroll, where the last snapshot is known.
  Shows-last :
      (given older : List (Snapshot F)) (s : Snapshot F) (app : App F)
      → older ++ app.snapshots ≡ given
      → length app.snapshots ≡ min 60 (length given)
      → last app.snapshots ≡ some s
      → app.tx_scroll ≤ length s.ranked_rows - 1
      → Shows given app
  Shows-last given older s app e size h low = (older, e, size, rw h low)

  Shows-step :
      (given : List (Snapshot F)) (s : Snapshot F) (app app' : App F)
      → Shows given app
      → last app.snapshots ≡ some s
      → app'.snapshots ≡ app.snapshots
      → app'.tx_scroll ≤ length s.ranked_rows - 1
      → Shows given app'
  Shows-step given s app app' (older, e, size, range) h same low =
      Shows-last given older s app' (rw same e) (rw same size) (rw same h) low

  push_snapshot-Shows :
      (given : List (Snapshot F)) (s : Snapshot F) (app : App F)
      → Shows given app
      → (app' : App F) × (push_snapshot s app ≡ some app')
        × (last app'.snapshots ≡ some s)
        × Shows (given ++ s ∷ []) app'
  unfolding push_snapshot
  push_snapshot-Shows given s app (older, e, size, range) =
      let (newest, (front, cut), kept) = window-Windows app.snapshots s in
      let pushed : App F = record app { snapshots = window (app.snapshots ++ s ∷ []) } in
      let (app', done, same, low) = clamp_scroll-Keeps s pushed 0 newest in
      let all : (older ++ front) ++ pushed.snapshots ≡ given ++ s ∷ [] =
        append_assoc older front pushed.snapshots
        ∙ ap (λ xs. older ++ xs) cut
        ∙ sym (append_assoc older app.snapshots (s ∷ []))
        ∙ ap (λ xs. xs ++ s ∷ []) e in
      let number : length pushed.snapshots ≡ min 60 (length (given ++ s ∷ [])) =
        omega (arith, kept, size, length-append given (s ∷ [])) in
      (
        app',
        done,
        rw same newest,
        Shows-last (given ++ s ∷ []) (older ++ front) s app' (rw same all) (rw same number)
            (rw same newest) low,
      )

  run_turn-Shows :
      (given : List (Snapshot F)) (turn : Turn F) (app : App F)
      → Shows given app
      → (app' : App F) × (more : Bool) × (run_turn turn app ≡ some (app', more))
        × Shows (given ++ turn.snapshot ∷ []) app'
  unfolding run_turn
  run_turn-Shows given turn app h =
      let s = turn.snapshot in
      let (pushed, e, newest, shows) = push_snapshot-Shows given s app h in
      let (drawn, f, same, low) = render-Keeps turn s pushed newest in
      let newest' : last drawn.snapshots ≡ some s = rw same newest in
      let (app', more, g, same', low') =
        on_event-KeepsTurn s drawn turn.event turn.list_rows newest' low in
      (
        app',
        more,
        rw (run_turn, e, f) g,
        Shows-step (given ++ s ∷ []) s pushed app' shows newest (same' ∙ same) low',
      )

  run_app-Shows :
      (given : List (Snapshot F)) (turns : List (Turn F)) (app : App F)
      → Shows given app
      → (app' : App F) × (seen rest : List (Turn F)) × (run_app turns app ≡ some app')
        × (turns ≡ seen ++ rest)
        × Shows (given ++ map (λ t. t.snapshot) seen) app'
  unfolding run_app
  run_app-Shows given [] app h = (app, [], [], refl, refl, rw (append-nil given) h)
  run_app-Shows given (turn ∷ turns) app h =
      let (next, more, e, shows) = run_turn-Shows given turn app h in
      let (app', seen, rest, f, split, shown) =
        run_app-Shows (given ++ turn.snapshot ∷ []) turns next shows in
      elim (Bool-cases more) [
        | inl going ↦ (
          app',
          turn ∷ seen,
          rest,
          rw (run_app, e, going) f,
          ap (λ ts. turn ∷ ts) split,
          rw (← append_assoc given (turn.snapshot ∷ []) (map (λ t. t.snapshot) seen)) shown,
        )
        | inr quit ↦ (next, turn ∷ [], turns, rw (run_app, e, quit) refl, refl, shows)
      ]

  -- Whatever the snapshots, the sizes of the pane and the keys, the screen never panics: it ends with the
  -- last 60 snapshots of the turns that it took, which are the first ones, in their order (all of
  -- them if they were fewer); and its scroll is within the rows of the last one, 0 if it has none.
  pub run_app-window :
      (duration_secs : ℕ) (turns : List (Turn F))
      → (app : App F) × (seen rest : List (Turn F)) × (run_app turns (new_app duration_secs)
          ≡ some app)
        × (turns ≡ seen ++ rest)
        × Shows (map (λ t. t.snapshot) seen) app
  run_app-window duration_secs turns =
      run_app-Shows [] turns (new_app duration_secs) ([], refl, omega arith, refl)
