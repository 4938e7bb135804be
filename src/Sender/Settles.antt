-- ===== src/Sender/Settles.antt =====
-- crates/bulkmail/src/sender.rs: the send loop ends, sends a bounded number of times, and settles
-- the replay token that it holds last, once.
use bulkmail.Prelude.{
  ℕ, zero, suc, ◌+◌, ◌-◌, ◌≤◌, ◌≡◌, refl, none, some, arith, inl, inr, ◌⊎◌, List, [], ◌∷◌, ap, max,
  Bool-cases, Result, ok, err, ltb, ltb→lt, min,
}
use bulkmail.Error.{Error}
use bulkmail.Message.{Message, increment_retry, is_expired, max_retries, can_retry}
use bulkmail.Clock.{TimeSource, now_ms, instant, elapsed}
use bulkmail.PriorityQueue.{MessageHeap}
use bulkmail.Adapter.{
  ChainAdapter, SendOutcome, RetryDecision, confirmed, dropped, reverted, resubmit, requeue,
  abandon,
}
use bulkmail.Sender.Counted.{Counters, handed_by, counted, counted_time}
use bulkmail.Sender.{
  Sender, Outcome, Loop, Pending, decide, after_drop, after_send, after_answer, after_fee, attempt,
  send_and_watch, process_message, add_message,
}

module _ (A : ChainAdapter) (heap : MessageHeap) (time : TimeSource A.World) where
  abbrev pub Counting : Type 0
  Counting = Sender (counted A) heap (counted_time time)

  abbrev CountedLoop : Type 0
  CountedLoop = Loop (counted A) heap (counted_time time)

  abbrev CountedPending : Type 0
  CountedPending = Pending (counted A) heap (counted_time time)

  abbrev Tokens : Type 0
  Tokens = List A.ReplayToken

  abbrev Newest : A.ReplayToken → Tokens → Type 0
  Newest t [] = ⊥
  Newest t (x ∷ tokens) = x ≡ t

  -- Of the tokens, only `t` is settled: given back or handed over as confirmed, once.
  abbrev SettledOnce : A.ReplayToken → Counters A.ReplayToken → Counters A.ReplayToken → Type 0
  SettledOnce t c d =
      ((d.released ≡ t ∷ c.released) × (d.confirmed ≡ c.confirmed))
      ⊎ ((d.confirmed ≡ t ∷ c.confirmed) × (d.released ≡ c.released))

  -- From the counters `c`, a run returns, having sent at most `budget` times and taken no token, and
  -- the token that was handed out last is settled, and no other.
  abbrev Settles :
      Counters A.ReplayToken → ℕ → Outcome (counted A) heap (counted_time time) → Type 0
  Settles c budget none = ⊥
  Settles c budget (some (r, s)) =
      let d = s.world.1 in
      (d.sent ≤ c.sent + budget)
      × (d.taken ≡ c.taken)
      × ((t : A.ReplayToken) × Newest t d.handed × SettledOnce t c d)

  -- How often a message may still be sent: once at least.
  abbrev budget : Message → ℕ
  budget msg = max 1 (max_retries - msg.retry_count)

  abbrev LoopSettles : ℕ → CountedLoop → Type 0
  LoopSettles n loop =
      (msg : Message) (fee : A.FeeParams) (token : A.ReplayToken) (count : ℕ) (s : Counting)
      → budget msg ≤ n
      → Newest token s.world.1.handed
      → Settles s.world.1 (budget msg) (loop msg fee token count s)

  Settles-mono :
      (c : Counters A.ReplayToken) (a b : ℕ) (o : Outcome (counted A) heap (counted_time time))
      → a ≤ b
      → Settles c a o
      → Settles c b o
  Settles-mono c a b none h x = absurd x
  Settles-mono c a b (some (r, s)) h x = (omega arith, x.1, x.2)

  -- The token in use after a decision: the new one, or as before.
  abbrev carried : RetryDecision A.FeeParams A.ReplayToken → A.ReplayToken → A.ReplayToken
  carried (resubmit fee token) old = token
  carried requeue old = old
  carried abandon old = old

  handed_by-Newest :
      (d : RetryDecision A.FeeParams A.ReplayToken) (old : A.ReplayToken) (tokens : Tokens)
      → Newest old tokens
      → Newest (carried d old) (handed_by d tokens)
  handed_by-Newest (resubmit fee token) old tokens h = refl
  handed_by-Newest requeue old tokens h = h
  handed_by-Newest abandon old tokens h = h

  decide-Settles :
      (n : ℕ) (loop : CountedLoop) (p : CountedPending) (msg : Message)
      (d : RetryDecision A.FeeParams A.ReplayToken) (s : Counting)
      → LoopSettles n loop
      → budget msg ≤ n
      → Newest (carried d p.replay_token) s.world.1.handed
      → Settles s.world.1 (budget msg) (decide (counted A) heap (counted_time time) loop p msg d s)
  unfolding decide add_message now_ms
  decide-Settles n loop p msg (resubmit fee token) s h b t = h msg fee token _ s b t
  decide-Settles n loop p msg requeue s h b t =
      (omega arith, refl, (p.replay_token, t, inl (refl, refl)))
  decide-Settles n loop p msg abandon s h b t =
      (omega arith, refl, (p.replay_token, t, inl (refl, refl)))

  -- A drop leaves one attempt fewer, and the last one gives the token back.
  after_drop-Settles :
      (n : ℕ) (loop : CountedLoop) (p : CountedPending) (s : Counting)
      → LoopSettles n loop
      → budget p.msg ≤ suc n
      → Newest p.replay_token s.world.1.handed
      → Settles s.world.1
          (budget p.msg - 1)
          (after_drop (counted A) heap (counted_time time) loop p s)
  unfolding after_drop increment_retry can_retry
  after_drop-Settles n loop p s h b t =
      elim (Bool-cases (ltb (min (p.msg.retry_count + 1) 4294967295) 3)) [
        | inl more ↦
            let left : budget (increment_retry p.msg).0 ≡ budget p.msg - 1 =
              omega (arith, ltb→lt _ _ more) in
            rw more (
              Settles-mono s.world.1 _ _ _ (omega arith) (
                decide-Settles n loop p (increment_retry p.msg).0
                  (A.retry.handle_dropped p s.world.0).1
                  (record s {
                    world = (
                      (A.retry.handle_dropped p s.world.0).0,
                      record s.world.1 {
                        handed = handed_by (A.retry.handle_dropped p s.world.0).1 s.world.1.handed;
                      },
                    );
                  })
                  h (omega arith)
                  (handed_by-Newest (A.retry.handle_dropped p s.world.0).1 p.replay_token
                    s.world.1.handed t)))
        | inr spent ↦ rw spent (omega arith, refl, (p.replay_token, t, inl (refl, refl)))
      ]

  after_send-Settles :
      (n : ℕ) (loop : CountedLoop) (pending_at : A.TxId → CountedPending) (msg : Message)
      (token : A.ReplayToken) (o : SendOutcome A.TxId) (created_at : ℕ) (s : Counting)
      → ((t : A.TxId) → ((pending_at t).msg ≡ msg) × ((pending_at t).replay_token ≡ token))
      → LoopSettles n loop
      → budget msg ≤ suc n
      → Newest token s.world.1.handed
      → Settles s.world.1
          (budget msg - 1)
          (after_send (counted A) heap (counted_time time) loop pending_at o created_at s)
  unfolding after_send elapsed
  after_send-Settles n loop pending_at msg token (confirmed t) created_at s e h b k =
      (omega arith, refl, (token, k, inr (ap (λ u. u ∷ s.world.1.confirmed) (e t).1, refl)))
  after_send-Settles n loop pending_at msg token (dropped t) created_at s e h b k =
      rw (← (e t).0)
        (after_drop-Settles n loop (pending_at t) s h (rw ((e t).0) b) (rw ((e t).1) k))
  after_send-Settles n loop pending_at msg token (reverted t) created_at s e h b k =
      rw (← (e t).0)
        (after_drop-Settles n loop (pending_at t) s h (rw ((e t).0) b) (rw ((e t).1) k))

  Settles-sent :
      (c : Counters A.ReplayToken) (b : ℕ) (o : Outcome (counted A) heap (counted_time time))
      → 1 ≤ b
      → Settles (record c { sent = suc c.sent }) (b - 1) o
      → Settles c b o
  Settles-sent c b none h x = absurd x
  Settles-sent c b (some (r, s)) h x = (omega arith, x.1, x.2)

  after_answer-Settles :
      (n : ℕ) (loop : CountedLoop) (pending_at : A.TxId → CountedPending) (token : A.ReplayToken)
      (msg : Message) (sent : Result Error (SendOutcome A.TxId)) (created_at : ℕ) (s : Counting)
      → ((t : A.TxId) → ((pending_at t).msg ≡ msg) × ((pending_at t).replay_token ≡ token))
      → LoopSettles n loop
      → budget msg ≤ suc n
      → Newest token s.world.1.handed
      → Settles s.world.1 (budget msg - 1) (
          after_answer (counted A) heap (counted_time time) loop pending_at token sent created_at s)
  unfolding after_answer
  after_answer-Settles n loop pending_at token msg (ok outcome) created_at s e h b k =
      after_send-Settles n loop pending_at msg token outcome created_at s e h b k
  after_answer-Settles n loop pending_at token msg (err _) created_at s e h b k =
      (omega arith, refl, (token, k, inl (refl, refl)))

  attempt-Settles :
      (n : ℕ) (loop : CountedLoop) (msg : Message) (fee : A.FeeParams) (token : A.ReplayToken)
      (count : ℕ) (s : Counting)
      → LoopSettles n loop
      → budget msg ≤ suc n
      → Newest token s.world.1.handed
      → Settles s.world.1
          (budget msg)
          (attempt (counted A) heap (counted_time time) loop msg fee token count s)
  unfolding attempt now_ms instant
  attempt-Settles n loop msg fee token count s h b k =
      let (t, w) = now_ms time s.world.0 in
      elim (Bool-cases (is_expired msg t)) [
        | inl late ↦ rw late (omega arith, refl, (token, k, inl (refl, refl)))
        | inr live ↦ rw live (
            Settles-sent s.world.1 (budget msg) _ (omega arith)
              (after_answer-Settles n loop _ token msg _ _ _ (λ _. (refl, refl)) h b k))
      ]

  -- The send loop, on fuel for three passes, returns for every adapter, message and clock, where its token is
  -- the one that was handed out last. It sends at most as often as the message has retries left, and once at
  -- least, and settles the token that is handed out last by its end, once, and no other.
  pub send_and_watch-Settles :
      (n : ℕ) → LoopSettles n (send_and_watch (counted A) heap (counted_time time) n)
  unfolding send_and_watch
  send_and_watch-Settles zero msg fee token count s b k = absurd (omega arith)
  send_and_watch-Settles (suc n) msg fee token count s b k =
      attempt-Settles n _ msg fee token count s (send_and_watch-Settles n) b k

  -- What `process_message` did: nothing, or one token taken, at most three transactions sent, and the
  -- token that was handed out last settled.
  abbrev pub Processed :
      Counters A.ReplayToken → Outcome (counted A) heap (counted_time time) → Type 0
  Processed c none = ⊥
  Processed c (some (r, s)) =
      let d = s.world.1 in
      (d ≡ c)
      ⊎ ((d.sent ≤ c.sent + max_retries)
          × (d.taken ≡ suc c.taken)
          × ((t : A.ReplayToken) × Newest t d.handed × SettledOnce t c d))

  after_fee-Settles :
      (msg : Message) (token : A.ReplayToken) (priced : Result Error A.FeeParams) (s : Counting)
      → Newest token s.world.1.handed
      → Settles s.world.1 max_retries
          (after_fee (counted A) heap (counted_time time) max_retries msg token priced s)
  unfolding after_fee
  after_fee-Settles msg token (ok fee) s k =
      Settles-mono s.world.1 (budget msg) max_retries _ (omega arith)
        (send_and_watch-Settles max_retries msg fee token 0 s (omega arith) k)
  after_fee-Settles msg token (err _) s k = (omega arith, refl, (token, k, inl (refl, refl)))

  Processed-taken :
      (c : Counters A.ReplayToken) (token : A.ReplayToken)
      (o : Outcome (counted A) heap (counted_time time))
      → Settles (record c { taken = suc c.taken; handed = token ∷ c.handed }) max_retries o
      → Processed c o
  Processed-taken c token none x = absurd x
  Processed-taken c token (some (r, s)) x = inr x

  -- Processing a message always returns, whatever the adapter, the heap and the clock do. Either it changes
  -- no count and no list of tokens, or it takes exactly one replay token and sends at most three transactions,
  -- and of all tokens exactly one is settled, exactly once, by being given back or by being handed over as
  -- confirmed: the one that was handed to it last, which is the token that it took or, after resubmissions,
  -- the one that the last of them brought.
  pub process_message-Processed :
      (msg : Message) (s : Counting)
      → Processed s.world.1 (process_message (counted A) heap (counted_time time) max_retries msg s)
  unfolding process_message now_ms
  process_message-Processed msg s =
      let (t, w) = now_ms time s.world.0 in
      elim (Bool-cases (is_expired msg t)) [
        | inl late ↦ rw late (inl refl)
        | inr live ↦ rw live (
            Processed-taken s.world.1 (A.replay.next (now_ms (counted_time time) s.world).1.0).1 _
              (after_fee-Settles msg _ _ _ refl))
      ]
