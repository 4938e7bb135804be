-- ===== src/Transport/Rpc/Tracked.antt =====
-- crates/mempooloracle/src/transport/rpc.rs with crates/mempooloracle/src/lib.rs: the tasks and the
-- tracker's thread, which receives from their channel while they send.
use Prim.Native.String.{String}
use mathlib.Core.List.{append-nil}
use bulkmail.Prelude.{
  ◌≡◌, refl, sym, ap, ◌∙◌, List, [], ◌∷◌, ◌++◌, Bool, true, false, Option, none, some, Result, ok,
  err, if_either, Bool-cases, inl, inr, length,
}
use bulkmail.Mempool.Queues.{PendingTx}
use bulkmail.Mempool.{MempoolInner, TrackerConfig}
use bulkmail.Mempool.Block.{FloatOps}
use bulkmail.Mempool.Tracker.{
  MempoolEvent, pending_transaction, new_block, from_channel, handle_event, run,
}
use bulkmail.Runtime.{record_block, record_pending_seen}
use bulkmail.Transport.{TrackerError, Channel, Feed, send, feed}
use bulkmail.Transport.Rpc.{
  RpcTransaction, RpcBlock, BackfillTask, asking, sending, over, Tasks, started, Input,
  block_shutdown, header, pending_shutdown, transaction, backfill_shutdown, backfill_answer,
  backfill_turn, receiver_dropped, on_header, on_transaction, on_backfill, backfill_loop,
  backfill_step, step, block_update, alloy_tx_to_pending_tx,
}

-- What a task adds to the channel.
abbrev Extends : Channel → Channel → Type 0
Extends c c' =
    (events : List MempoolEvent) × (c'.sent ≡ c.sent ++ events) × (c'.unread ≡ c.unread ++ events)

abbrev Adds : Tasks → Tasks → Type 0
Adds s s' = Extends s.feed.channel s'.feed.channel

nothing : (c : Channel) → Extends c c
nothing c = ([], sym (append-nil c.sent), sym (append-nil c.unread))

feed-Extends : (e : MempoolEvent) (f : Feed) → Extends f.channel (feed e f).0.channel
unfolding feed send
feed-Extends e f = elim (Bool-cases f.channel.receiver) [
  | inl alive ↦ rw alive (e ∷ [], refl, refl)
  | inr gone ↦ rw gone (nothing f.channel)
]

on_header-Adds : (r : Option (Result String (Option RpcBlock))) (s : Tasks) → Adds s (on_header r s)
unfolding on_header
on_header-Adds none s = nothing s.feed.channel
on_header-Adds (some (err why)) s = nothing s.feed.channel
on_header-Adds (some (ok none)) s = nothing s.feed.channel
on_header-Adds (some (ok (some block))) s =
    feed-Extends (new_block (block_update block)) (record s.feed {
      telemetry =
          record_block (length (block_update block).included_txs) (block_update block).gas_used
            s.feed.telemetry;
    })

on_transaction-Adds : (tx : Option RpcTransaction) (s : Tasks) → Adds s (on_transaction tx s)
unfolding on_transaction
on_transaction-Adds none s = nothing s.feed.channel
on_transaction-Adds (some tx) s =
    feed-Extends (pending_transaction (alloy_tx_to_pending_tx tx))
      (record s.feed { telemetry = record_pending_seen s.feed.telemetry })

on_backfill-Adds : (r : Result TrackerError (List PendingTx)) (s : Tasks) → Adds s (on_backfill r s)
unfolding on_backfill
on_backfill-Adds (ok txs) s = nothing s.feed.channel
on_backfill-Adds (err e) s = nothing s.feed.channel

backfill_loop-Adds :
    (stopped : Bool) (txs : List PendingTx) (s : Tasks) → Adds s (backfill_loop stopped txs s)
unfolding backfill_loop
backfill_loop-Adds stopped [] s = nothing s.feed.channel
backfill_loop-Adds true (tx ∷ txs) s = nothing s.feed.channel
backfill_loop-Adds false (tx ∷ txs) s = feed-Extends (pending_transaction tx) s.feed

backfill_shutdown-Adds :
    (b : BackfillTask) (s : Tasks) → Adds s (backfill_step b backfill_shutdown s)
backfill_shutdown-Adds asking s = nothing s.feed.channel
backfill_shutdown-Adds (sending txs) s = nothing s.feed.channel
backfill_shutdown-Adds over s = nothing s.feed.channel

backfill_answer-Adds :
    (b : BackfillTask) (r : Result TrackerError (List PendingTx)) (s : Tasks)
    → Adds s (backfill_step b (backfill_answer r) s)
backfill_answer-Adds asking r s = on_backfill-Adds r s
backfill_answer-Adds (sending txs) r s = nothing s.feed.channel
backfill_answer-Adds over r s = nothing s.feed.channel

backfill_turn-Adds :
    (b : BackfillTask) (stopped : Bool) (s : Tasks)
    → Adds s (backfill_step b (backfill_turn stopped) s)
backfill_turn-Adds asking stopped s = nothing s.feed.channel
backfill_turn-Adds (sending txs) stopped s = backfill_loop-Adds stopped txs s
backfill_turn-Adds over stopped s = nothing s.feed.channel

step-Adds : (i : Input) (s : Tasks) → Adds s (step i s)
unfolding step
step-Adds block_shutdown s = nothing s.feed.channel
step-Adds (header r) s =
    if_either (Adds s) s.block_task (λ _. on_header-Adds r s) (λ _. nothing s.feed.channel)
step-Adds pending_shutdown s = nothing s.feed.channel
step-Adds (transaction tx) s =
    if_either (Adds s) s.pending_task (λ _. on_transaction-Adds tx s) (λ _. nothing s.feed.channel)
step-Adds backfill_shutdown s = backfill_shutdown-Adds s.backfill s
step-Adds (backfill_answer r) s = backfill_answer-Adds s.backfill r s
step-Adds (backfill_turn stopped) s = backfill_turn-Adds s.backfill stopped s
step-Adds receiver_dropped s = nothing s.feed.channel

-- The tasks and the tracker's thread; a move is an input to a task, or one receipt of the tracker.
pub record System (F : Type 0) : Type 0 where
  pub tasks : Tasks
  pub inner : MempoolInner F

-- The system of a connection, over the tracker of the same configuration.
abbrev pub connected : {F : Type 0} → TrackerConfig F → System F
connected config = record { tasks = started; inner = from_channel [] config }

pub data Move : Type 0 where
  task : Input → Move
  receive : Move

run-append :
    {F : Type 0} (ops : FloatOps F) (xs ys : List MempoolEvent) (m : MempoolInner F)
    → run ops (xs ++ ys) m ≡ run ops ys (run ops xs m)
unfolding run
run-append ops [] ys m = refl
run-append ops (x ∷ xs) ys m = run-append ops xs ys (handle_event ops x m)

module _ {F : Type 0} (ops : FloatOps F) where
  -- The first unread event, taken out of the channel and handled: a turn of `MempoolTracker::run`.
  unfoldable pub receive_from : List MempoolEvent → System F → System F
  receive_from [] s = s
  receive_from (e ∷ events) s = record s {
    tasks = record s.tasks {
      feed = record s.tasks.feed { channel = record s.tasks.feed.channel { unread = events } };
    };
    inner = handle_event ops e s.inner;
  }

  unfoldable pub move : Move → System F → System F
  unfolding receive_from
  move (task i) s = record s { tasks = step i s.tasks }
  move receive s = receive_from s.tasks.feed.channel.unread s

  unfoldable pub moves : List Move → System F → System F
  unfolding move
  moves [] s = s
  moves (m ∷ ms) s = moves ms (move m s)

  -- The tracker, once it has read all, is where it would be had it handled all that was sent from `m`.
  abbrev pub Follows : MempoolInner F → System F → Type 0
  Follows m s = run ops s.tasks.feed.channel.unread s.inner ≡ run ops s.tasks.feed.channel.sent m

  pub task-Follows :
      (m : MempoolInner F) (i : Input) (s : System F)
      → Follows m s
      → Follows m (record s { tasks = step i s.tasks })
  task-Follows m i s h =
      let (events, sent, unread) = step-Adds i s.tasks in
      ap (λ es. run ops es s.inner) unread
      ∙ run-append ops s.tasks.feed.channel.unread events s.inner
      ∙ ap (run ops events) h
      ∙ sym (run-append ops s.tasks.feed.channel.sent events m)
      ∙ ap (λ es. run ops es m) (sym sent)

  pub receive-Follows :
      (m : MempoolInner F) (unread : List MempoolEvent) (s : System F)
      → s.tasks.feed.channel.unread ≡ unread
      → Follows m s
      → Follows m (receive_from unread s)
  unfolding receive_from run
  receive-Follows m [] s e h = h
  receive-Follows m (event ∷ events) s e h = sym (ap (λ es. run ops es s.inner) e) ∙ h

  pub moves-Follows :
      (m : MempoolInner F) (ms : List Move) (s : System F) → Follows m s → Follows m (moves ms s)
  unfolding moves move
  moves-Follows m [] s h = h
  moves-Follows m (task i ∷ ms) s h =
      moves-Follows m ms (record s { tasks = step i s.tasks }) (task-Follows m i s h)
  moves-Follows m (receive ∷ ms) s h =
      moves-Follows m ms _ (receive-Follows m s.tasks.feed.channel.unread s refl h)

  -- In whatever order the tasks take their turns and the tracker receives: when the tracker has read
  -- all that was sent, its state is that of the initial tracker run on exactly what was sent, in the
  -- order in which it was sent.
  pub moves-run :
      (config : TrackerConfig F) (ms : List Move)
      → let s = moves ms (connected config) in
        s.tasks.feed.channel.unread ≡ []
        → s.inner ≡ run ops s.tasks.feed.channel.sent (from_channel [] config)
  unfolding run
  moves-run config ms h =
      let s = moves ms (connected config) in
      ap (λ es. run ops es s.inner) (sym h)
      ∙ moves-Follows (from_channel [] config) ms (connected config) refl
