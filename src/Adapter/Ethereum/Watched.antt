-- ===== src/Adapter/Ethereum/Watched.antt =====
-- crates/bulkmail/src/adapter/ethereum.rs under crates/bulkmail/src/sender.rs: what the send
-- loop of one message does to the chain, the nonces and the queue, while no other task acts.
use mathlib.Core.List.{append_assoc, append-nil}
use bulkmail.Prelude.{
  ℕ, zero, suc, ◌+◌, ◌-◌, ◌≤◌, ◌≡◌, refl, ◌⊎◌, inl, inr, [], ◌∷◌, ◌++◌, none, some, arith, max, min,
  ltb, ltb→lt, Bool-cases, Result, ok, err, ap, sym, ◌∙◌,
}
use bulkmail.Error.{Error}
use bulkmail.Message.{Message, is_expired, increment_retry, can_retry, max_retries}
use bulkmail.NonceManager.{mark_nonce_available, update_current_nonce}
use bulkmail.Chain.{ChainClient}
use bulkmail.Clock.{TimeSource, now_ms, instant, elapsed}
use bulkmail.PriorityQueue.{MessageHeap}
use bulkmail.Adapter.{SendOutcome, confirmed, dropped, reverted}
use bulkmail.Adapter.Ethereum.{
  EthWorld, EthFeeParams, EthPending, eth, eth_time, bump_fee, transaction, handle_confirmed,
}
use bulkmail.Adapter.Ethereum.Logged.{Log, logged, logged_time}
use bulkmail.Sender.{
  Sender, Outcome, Loop, decide, after_drop, after_send, after_answer, attempt, send_and_watch,
}
use bulkmail.Adapter.Ethereum.Ladder.{
  Ladder, Ladder-retry, send_transaction-log, handle_dropped-resubmit,
}

module _ {E : Type 0} (chain : ChainClient E) (address : ℕ) (heap : MessageHeap)
    (time : TimeSource E) where
  abbrev pub T : TimeSource (EthWorld (E × Log))
  T = eth_time (logged_time time)

  abbrev pub S : Type 0
  S = Sender (eth (logged chain) address) heap T

  abbrev pub O : Type 0
  O = Outcome (eth (logged chain) address) heap T

  abbrev pub L : Type 0
  L = Loop (eth (logged chain) address) heap T

  -- How a run ends that has `nonce` to settle.
  abbrev pub Ends : Message → ℕ → EthFeeParams → S → O → Type 0
  Ends msg nonce fee s none = ⊥
  Ends msg nonce fee s (some (r, s')) =
      ((txs : Log) × (s'.world.env.1 ≡ s.world.env.1 ++ txs) × Ladder chain.id msg nonce fee txs)
      × (s'.queue ≡ s.queue)
      × ((s'.world.nonces ≡ mark_nonce_available s.world.nonces nonce)
          ⊎ ((r ≡ ok tt) × (s'.world.nonces ≡ update_current_nonce s.world.nonces nonce)))

  abbrev pub budget : Message → ℕ
  budget msg = max 1 (max_retries - msg.retry_count)

  abbrev pub LoopEnds : ℕ → L → Type 0
  LoopEnds n loop =
      (msg : Message) (fee : EthFeeParams) (nonce count : ℕ) (s : S)
      → budget msg ≤ n
      → count ≤ msg.retry_count
      → Ends msg nonce fee s (loop msg fee nonce count s)

  Ends-retry :
      (msg : Message) (k nonce : ℕ) (fee : EthFeeParams) (s : S) (o : O)
      → Ends (record msg { retry_count = k }) nonce fee s o
      → Ends msg nonce fee s o
  Ends-retry msg k nonce fee s none x = absurd x
  Ends-retry msg k nonce fee s (some (r, s')) ((txs, l, d), q, n) =
      ((txs, l, Ladder-retry chain.id msg k nonce fee txs d), q, n)

  after_drop-Ends :
      (n : ℕ) (loop : L) (p : EthPending) (s : S)
      → LoopEnds n loop
      → budget p.msg ≤ suc n
      → p.replacement_count ≤ p.msg.retry_count
      → Ends p.msg p.replay_token
          (bump_fee p.fee)
          s
          (after_drop (eth (logged chain) address) heap T loop p s)
  unfolding after_drop increment_retry can_retry decide
  after_drop-Ends n loop p s h b c =
      elim (Bool-cases (ltb (min (p.msg.retry_count + 1) 4294967295) 3)) [
        | inl more ↦
            rw (more, handle_dropped-resubmit p s.world.nonces (omega (arith, ltb→lt _ _ more)) c)
              (Ends-retry p.msg _ p.replay_token (bump_fee p.fee) s _ (
                h (increment_retry p.msg).0 (bump_fee p.fee) p.replay_token _ s
                  (omega (arith, ltb→lt _ _ more)) (omega (arith, ltb→lt _ _ more))))
        | inr spent ↦ rw spent (([], sym (append-nil _), tt), refl, inl refl)
      ]

  after_send-Ends :
      (n : ℕ) (loop : L) (pending_at : ℕ → EthPending) (p : EthPending) (o : SendOutcome ℕ)
      (created_at : ℕ) (s : S)
      → ((t : ℕ) → pending_at t ≡ record p { tx_id = t })
      → LoopEnds n loop
      → budget p.msg ≤ suc n
      → p.replacement_count ≤ p.msg.retry_count
      → Ends p.msg p.replay_token
          (bump_fee p.fee)
          s
          (after_send (eth (logged chain) address) heap T loop pending_at o created_at s)
  unfolding after_send elapsed handle_confirmed
  after_send-Ends n loop pending_at p (confirmed t) created_at s e h b c = (
    ([], sym (append-nil _), tt),
    refl,
    inr (refl, ap (λ q. update_current_nonce s.world.nonces q.replay_token) (e t)),
  )
  after_send-Ends n loop pending_at p (dropped t) created_at s e h b c =
      rw (e t) (after_drop-Ends n loop (record p { tx_id = t }) s h b c)
  after_send-Ends n loop pending_at p (reverted t) created_at s e h b c =
      rw (e t) (after_drop-Ends n loop (record p { tx_id = t }) s h b c)

  -- One transaction more, in front of those that follow.
  Ends-sent :
      (msg : Message) (nonce : ℕ) (fee : EthFeeParams) (s s₁ : S) (o : O)
      → s₁.world.env.1 ≡ s.world.env.1 ++ transaction chain.id msg fee nonce ∷ []
      → s₁.queue ≡ s.queue
      → s₁.world.nonces ≡ s.world.nonces
      → Ends msg nonce (bump_fee fee) s₁ o
      → Ends msg nonce fee s o
  Ends-sent msg nonce fee s s₁ none l q n x = absurd x
  Ends-sent msg nonce fee s s₁ (some (r, s')) l q n ((txs, l', d), q', n') = (
    (
      transaction chain.id msg fee nonce ∷ txs,
      l' ∙ ap (λ k. k ++ txs) l ∙ append_assoc s.world.env.1 _ txs,
      (refl, d),
    ),
    q' ∙ q,
    rw (← n) n',
  )

  after_answer-Ends :
      (n : ℕ) (loop : L) (pending_at : ℕ → EthPending) (p : EthPending)
      (sent : Result Error (SendOutcome ℕ)) (created_at : ℕ) (s : S)
      → ((t : ℕ) → pending_at t ≡ record p { tx_id = t })
      → LoopEnds n loop
      → budget p.msg ≤ suc n
      → p.replacement_count ≤ p.msg.retry_count
      → Ends p.msg p.replay_token (bump_fee p.fee) s (
          after_answer
            (eth (logged chain) address)
            heap
            T
            loop
            pending_at
            p.replay_token
            sent
            created_at
            s)
  unfolding after_answer
  after_answer-Ends n loop pending_at p (ok outcome) created_at s e h b c =
      after_send-Ends n loop pending_at p outcome created_at s e h b c
  after_answer-Ends n loop pending_at p (err _) created_at s e h b c =
      (([], sym (append-nil _), tt), refl, inl refl)

  attempt-Ends :
      (n : ℕ) (loop : L)
      → LoopEnds n loop
      → LoopEnds (suc n) (attempt (eth (logged chain) address) heap T loop)
  unfolding attempt now_ms instant
  attempt-Ends n loop h msg fee nonce count s b c =
      let (now, w) = now_ms T s.world in
      let (created_at, w₁) = instant T w in
      elim (Bool-cases (is_expired msg now)) [
        | inl late ↦ rw late (([], sym (append-nil _), tt), refl, inl refl)
        | inr live ↦ rw live (
            Ends-sent msg nonce fee s
              (record s {
                world = ((eth (logged chain) address).client.send_transaction msg fee nonce w₁).1;
              })
              _ (send_transaction-log chain msg fee nonce w₁.env) refl refl
              (after_answer-Ends n loop _
                (record {
                  msg = msg;
                  tx_id = 0;
                  fee = fee;
                  replay_token = nonce;
                  created_at = created_at;
                  replacement_count = count;
                })
                _ _ _ (λ t. refl) h b c))
      ]

  pub send_and_watch-Ends :
      (n : ℕ) → LoopEnds n (send_and_watch (eth (logged chain) address) heap T n)
  unfolding send_and_watch
  send_and_watch-Ends zero msg fee nonce count s b c = absurd (omega arith)
  send_and_watch-Ends (suc n) msg fee nonce count s b c =
      attempt-Ends n _ (send_and_watch-Ends n) msg fee nonce count s b c
