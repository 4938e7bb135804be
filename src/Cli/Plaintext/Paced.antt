-- ===== src/Cli/Plaintext/Paced.antt =====
-- crates/mempooloracle/examples/cli_tool.rs: how often the plain output comes, and until when.
use bulkmail.Prelude.{
  ℕ, ◌+◌, ◌-◌, ◌*◌, ◌≤◌, ◌<◌, ◌≡◌, refl, List, [], ◌∷◌, false, Option, none, some, All, arith, leb,
  ltb, if_either, leb→le, if◌then◌else◌,
}
use bulkmail.Cli.Plaintext.{Turn, Output, reached, report, plaintext_loop, run_plaintext}

-- The clock does not run backwards from the reading that makes a line due to the line and to the reading
-- after it.
abbrev pub Ticks : {F : Type 0} → Turn F → Type 0
Ticks t = (t.looked ≤ t.printed) × (t.printed ≤ t.rendered)

abbrev pub Before : {F : Type 0} → Option ℕ → Output F → Type 0
Before none out = Unit {0}
Before (some deadline) out = out.checked < deadline

-- Lines that are printed at least 500 ms after the time given and after one another, the deadline ahead.
abbrev pub Paced : {F : Type 0} → Option ℕ → ℕ → List (Output F) → Type 0
Paced deadline last [] = Unit {0}
Paced deadline last (out ∷ outs) =
    (last + 500 ≤ out.time) × Before deadline out × Paced deadline out.time outs

not_reached :
    {F : Type 0} (deadline : Option ℕ) (out : Output F)
    → reached deadline out.checked ≡ false
    → Before deadline out
not_reached none out h = tt
not_reached (some deadline) out h = ground arith

module _ {F : Type 0} where
  Paced-earlier :
      (deadline : Option ℕ) (earlier later : ℕ) (outs : List (Output F))
      → earlier ≤ later
      → Paced deadline later outs
      → Paced deadline earlier outs
  Paced-earlier deadline earlier later [] h p = tt
  Paced-earlier deadline earlier later (out ∷ outs) h p = (omega (arith, p.0, h), p.1, p.2)

  plaintext_loop-Paced :
      (deadline : Option ℕ) (last : ℕ) (turns : List (Turn F))
      → All Ticks turns
      → Paced deadline last (plaintext_loop deadline last turns)
  unfolding plaintext_loop
  plaintext_loop-Paced deadline last [] w = tt
  plaintext_loop-Paced deadline last (t ∷ turns) w =
      let P : List (Output F) → Type 0 = Paced deadline last in
      if_either P t.stop (λ _. tt)
        (λ _.
          if_either P (reached deadline t.now) (λ _. tt)
            (λ early.
              if_either P (leb 500 (t.looked - last))
                (λ due. (
                  omega (arith, w.0.0, leb→le 500 (t.looked - last) due),
                  not_reached deadline
                      (record { checked = t.now; time = t.printed; text = report t.snapshot })
                      early,
                  Paced-earlier deadline t.printed t.rendered
                      (plaintext_loop deadline t.rendered turns) w.0.1
                      (plaintext_loop-Paced deadline t.rendered turns w.1),
                ))
                (λ _. plaintext_loop-Paced deadline last turns w.1)))

  -- Where the clock is past its first second and does not run backwards within a turn, whatever the
  -- turns read and capture: each line is printed at least 500 ms after the one before it was printed (the
  -- first at least 500 ms after the reading that the loop starts with, a second before its start), and
  -- where a duration is given each line comes from a turn whose reading for the deadline was before it.
  pub run_plaintext-Paced :
      (duration_secs started_at now : ℕ) (turns : List (Turn F))
      → 1000 ≤ now
      → All Ticks turns
      → (outs : List (Output F)) × (run_plaintext duration_secs started_at now turns ≡ some outs)
        × Paced
            (if ltb 0 duration_secs then some (started_at + duration_secs * 1000) else none)
            (now - 1000)
            outs
  unfolding run_plaintext
  run_plaintext-Paced duration_secs started_at now turns h w =
      let deadline : Option ℕ =
        if ltb 0 duration_secs then some (started_at + duration_secs * 1000) else none in
      let fits : ltb now 1000 ≡ false = ground arith in
      (
        plaintext_loop deadline (now - 1000) turns,
        rw fits refl,
        plaintext_loop-Paced deadline (now - 1000) turns w,
      )
