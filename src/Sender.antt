-- ===== src/Sender.antt =====
-- crates/bulkmail/src/sender.rs: the orchestrator, over any chain adapter, any heap and any clock.
-- `send_and_watch` is a loop, here on fuel. The other tasks act on the same components between two
-- of its awaits: that is part of the adapter's operations on its world.
pub mod Counted
pub mod Run
pub mod Settles
pub mod Tasks
use bulkmail.Prelude.{
  ℕ, zero, suc, ◌+◌, ◌-◌, ◌%◌, ltb, ◌==◌, if◌then◌else◌, Bool, true, false, Option, none, some,
  Result, ok, err, u32_mod, List, [], ◌∷◌,
}
use bulkmail.Error.{Error, ChainError, RpcError, ℤ, negsuc, message_expired, subscription_closed}
use bulkmail.Message.{Message, is_expired, effective_priority, increment_retry}
use bulkmail.Clock.{TimeSource, now_ms, instant, elapsed}
use bulkmail.PriorityQueue.{MessageHeap, PriorityQueue}
use bulkmail.PriorityQueue
use bulkmail.Adapter.{
  ChainAdapter, SendOutcome, RetryDecision, PendingTransaction, confirmed, dropped, reverted,
  resubmit, requeue, abandon,
}

abbrev pub max_in_flight_transactions : ℕ
max_in_flight_transactions = 16

-- The permits of the semaphore that are left, and whether a wake-up is stored for the main loop.
pub record SenderState (W Q : Type 0) : Type 0 where
  pub world : W
  pub queue : Q
  pub max_in_flight : ℕ
  pub message_ready : Bool

module _ (A : ChainAdapter) (heap : MessageHeap) (time : TimeSource A.World) where
  abbrev pub Sender : Type 0
  Sender = SenderState A.World (PriorityQueue heap)

  abbrev pub Pending : Type 0
  Pending = PendingTransaction A.FeeParams A.ReplayToken A.TxId

  -- What a run of the send loop returns; `none` means that the fuel ran out.
  abbrev pub Outcome : Type 0
  Outcome = Option (Result Error (Unit {0}) × Sender)

  -- The rest of the loop, for the values that its variables have.
  abbrev pub Loop : Type 0
  Loop = Message → A.FeeParams → A.ReplayToken → ℕ → Sender → Outcome

  unfoldable pub new : A.World → Sender
  new w = record {
    world = w;
    queue = PriorityQueue.new heap;
    max_in_flight = max_in_flight_transactions;
    message_ready = false;
  }

  unfoldable pub add_message : Message → Sender → Sender
  add_message msg s =
      let (now, w) = now_ms time s.world in
      record s { world = w; queue = PriorityQueue.push heap s.queue msg now; message_ready = true }

  abbrev release : A.ReplayToken → Sender → Sender
  release token s = record s { world = A.replay.release token s.world }

  -- The decision of the retry strategy, carried out.
  unfoldable pub decide :
      Loop → Pending → Message → RetryDecision A.FeeParams A.ReplayToken → Sender → Outcome
  unfolding add_message
  decide loop pending msg (resubmit new_fee new_replay) s =
      loop msg new_fee new_replay ((pending.replacement_count + 1) % u32_mod) s
  decide loop pending msg requeue s = some (ok tt, add_message msg (release pending.replay_token s))
  decide loop pending msg abandon s = some (ok tt, release pending.replay_token s)

  -- A dropped or reverted transaction.
  unfoldable pub after_drop : Loop → Pending → Sender → Outcome
  unfolding decide
  after_drop loop pending s =
      let (msg, more) = increment_retry pending.msg in
      let (w, decision) = A.retry.handle_dropped pending s.world in
      let decided = decide loop pending msg decision (record s { world = w }) in
      if more then decided else some (ok tt, release pending.replay_token s)

  unfoldable pub after_send : Loop → (A.TxId → Pending) → SendOutcome A.TxId → ℕ → Sender → Outcome
  unfolding after_drop
  after_send loop pending_at (confirmed tx_id) created_at s =
      let (confirmation_time, w) = elapsed time created_at s.world in
      some (
        ok tt,
        record s { world = A.retry.handle_confirmed (pending_at tx_id) confirmation_time w },
      )
  after_send loop pending_at (dropped tx_id) created_at s = after_drop loop (pending_at tx_id) s
  after_send loop pending_at (reverted tx_id) created_at s = after_drop loop (pending_at tx_id) s

  -- What the client answers: an outcome, or an error that ends the loop.
  unfoldable pub after_answer :
      Loop
      → (A.TxId → Pending)
      → A.ReplayToken
      → Result Error (SendOutcome A.TxId)
      → ℕ
      → Sender
      → Outcome
  unfolding after_send
  after_answer loop pending_at replay_token (ok outcome) created_at s =
      after_send loop pending_at outcome created_at s
  after_answer loop pending_at replay_token (err e) created_at s =
      some (err e, release replay_token s)

  -- One pass through the body of the loop.
  unfoldable pub attempt : Loop → Loop
  unfolding after_answer
  attempt loop msg fee replay_token replacement_count s =
      let (now, w) = now_ms time s.world in
      let (created_at, w₁) = instant time w in
      let (sent, w₂) = A.client.send_transaction msg fee replay_token w₁ in
      let pending_at : A.TxId → Pending = λ tx_id. record {
        msg = msg;
        tx_id = tx_id;
        fee = fee;
        replay_token = replay_token;
        created_at = created_at;
        replacement_count = replacement_count;
      } in
      if is_expired msg now
      then some (err message_expired, release replay_token (record s { world = w }))
      else after_answer loop pending_at replay_token sent created_at (record s { world = w₂ })

  unfoldable pub send_and_watch : ℕ → Loop
  send_and_watch zero msg fee replay_token replacement_count s = none
  send_and_watch (suc fuel) msg fee replay_token replacement_count s =
      attempt (send_and_watch fuel) msg fee replay_token replacement_count s

  -- The message with its token, once the fee is known.
  unfoldable pub after_fee :
      ℕ → Message → A.ReplayToken → Result Error A.FeeParams → Sender → Outcome
  unfolding send_and_watch
  after_fee fuel msg replay_token (ok fee) s = send_and_watch fuel msg fee replay_token 0 s
  after_fee fuel msg replay_token (err e) s = some (err e, release replay_token s)

  unfoldable pub process_message : ℕ → Message → Sender → Outcome
  unfolding after_fee
  process_message fuel msg s =
      let (now, w) = now_ms time s.world in
      let (w₁, replay_token) = A.replay.next w in
      let (priced, w₂) = A.fees.get_fee_params (effective_priority msg now) w₁ in
      if is_expired msg now
      then some (err message_expired, record s { world = w })
      else after_fee fuel msg replay_token priced (record s { world = w₂ })
