-- ===== src/Cli/Plaintext.antt =====
-- crates/mempooloracle/examples/cli_tool.rs: the output where there is no terminal. Times are readings
-- of the clock in milliseconds; what a turn of the loop reads and captures is an argument.
pub mod Paced
use bulkmail.Prelude.{
  ℕ, ◌+◌, ◌-◌, ◌*◌, ltb, leb, List, [], ◌∷◌, Bool, true, false, if◌then◌else◌, Option, none, some,
}
use bulkmail.Cli.Snapshot.{Snapshot}
use bulkmail.Cli.Screen.{Line, lit, num, tenths}

-- A turn of the loop: the stop flag, the readings for the deadline and for the time since the last
-- output, the moment at which its line would be printed, the reading after that, and the snapshot
-- that it would capture.
pub record Turn (F : Type 0) : Type 0 where
  pub stop : Bool
  pub now : ℕ
  pub looked : ℕ
  pub printed : ℕ
  pub rendered : ℕ
  pub snapshot : Snapshot F

-- A line, with the reading that its turn checked against the deadline, and the moment at which it is
-- printed.
pub record Output (F : Type 0) : Type 0 where
  pub checked : ℕ
  pub time : ℕ
  pub text : Line F

abbrev pub reached : Option ℕ → ℕ → Bool
reached none now = false
reached (some deadline) now = leb deadline now

module _ {F : Type 0} where
  unfoldable pub report : Snapshot F → Line F
  report s =
      lit "base_fee="
      ∷ num s.base_fee
      ∷ lit " min_tip="
      ∷ num s.min_tip
      ∷ lit " expected_txs="
      ∷ num s.expected_txs
      ∷ lit " private_flow="
      ∷ tenths s.private_flow
      ∷ lit "% blocks="
      ∷ num s.block_count
      ∷ lit " pending_seen="
      ∷ num s.pending_seen
      ∷ []

  unfoldable pub plaintext_loop : Option ℕ → ℕ → List (Turn F) → List (Output F)
  unfolding report
  plaintext_loop deadline last_render [] = []
  plaintext_loop deadline last_render (t ∷ turns) =
      let printed =
        record { checked = t.now; time = t.printed; text = report t.snapshot }
        ∷ plaintext_loop deadline t.rendered turns in
      let quiet = plaintext_loop deadline last_render turns in
      if t.stop
      then []
      else if reached deadline t.now
      then []
      else if leb 500 (t.looked - last_render)
      then printed
      else quiet

  -- `none` is the panic of a time before the clock's start.
  unfoldable pub run_plaintext : ℕ → ℕ → ℕ → List (Turn F) → Option (List (Output F))
  unfolding plaintext_loop
  run_plaintext duration_secs started_at now turns =
      let deadline : Option ℕ =
        if ltb 0 duration_secs then some (started_at + duration_secs * 1000) else none in
      if ltb now 1000 then none else some (plaintext_loop deadline (now - 1000) turns)
