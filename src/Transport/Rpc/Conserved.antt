-- ===== src/Transport/Rpc/Conserved.antt =====
-- crates/mempooloracle/src/transport/rpc.rs: the telemetry against what the tasks send.
use Prim.Native.String.{String}
use bulkmail.Prelude.{
  ap, subst, ◌∙◌, if_either, ℕ, ◌+◌, ◌%◌, ◌≡◌, refl, List, [], ◌∷◌, ◌++◌, Bool, true, false, Option,
  none, some, Result, ok, err, arith, u64_mod, length, All,
}
use bulkmail.Mempool.Queues.{PendingTx}
use bulkmail.Mempool.Tracker.{MempoolEvent, pending_transaction, new_block}
use bulkmail.Runtime.{
  RuntimeTelemetry, record_backfill_size, record_block, record_pending_seen, new as new_telemetry,
}
use bulkmail.Transport.{TrackerError, Feed, send, feed}
use bulkmail.Transport.Rpc.{
  RpcTransaction, RpcBlock, BackfillTask, asking, sending, over, Tasks, started, Input,
  block_shutdown, header, pending_shutdown, transaction, backfill_shutdown, backfill_answer,
  backfill_turn, receiver_dropped, on_header, on_transaction, on_backfill, backfill_loop,
  backfill_step, step, steps, block_update, alloy_tx_to_pending_tx,
}

-- The blocks, and the transactions, among some events.
unfoldable pub blocks_in : List MempoolEvent → ℕ
blocks_in [] = 0
blocks_in (pending_transaction tx ∷ events) = blocks_in events
blocks_in (new_block block ∷ events) = blocks_in events + 1

unfoldable pub pendings_in : List MempoolEvent → ℕ
pendings_in [] = 0
pendings_in (pending_transaction tx ∷ events) = pendings_in events + 1
pendings_in (new_block block ∷ events) = pendings_in events

blocks_in-snoc :
    (events : List MempoolEvent) (e : MempoolEvent)
    → blocks_in (events ++ e ∷ []) ≡ blocks_in events + blocks_in (e ∷ [])
unfolding blocks_in
blocks_in-snoc [] e = omega arith
blocks_in-snoc (pending_transaction tx ∷ events) e = omega (arith, blocks_in-snoc events e)
blocks_in-snoc (new_block block ∷ events) e = omega (arith, blocks_in-snoc events e)

pendings_in-snoc :
    (events : List MempoolEvent) (e : MempoolEvent)
    → pendings_in (events ++ e ∷ []) ≡ pendings_in events + pendings_in (e ∷ [])
unfolding pendings_in
pendings_in-snoc [] e = omega arith
pendings_in-snoc (pending_transaction tx ∷ events) e = omega (arith, pendings_in-snoc events e)
pendings_in-snoc (new_block block ∷ events) e = omega (arith, pendings_in-snoc events e)

-- What the backfill has still to send.
abbrev pub backlog : BackfillTask → ℕ
backlog asking = 0
backlog (sending txs) = length txs
backlog over = 0

-- The inputs that make tasks stop with something left to send.
abbrev pub is_loss : Input → Bool
is_loss (backfill_turn true) = true
is_loss receiver_dropped = true
is_loss _ = false

abbrev pub Kept : Input → Type 0
Kept i = is_loss i ≡ false

abbrev Unasked : BackfillTask → RuntimeTelemetry → Type 0
Unasked asking t = t.initial_backfill_txs ≡ 0
Unasked (sending txs) t = Unit {0}
Unasked over t = Unit {0}

-- Both sums agree modulo 2^64.
abbrev pub Agree : Tasks → Type 0
Agree s =
    let t = s.feed.telemetry in
    let sent = s.feed.channel.sent in
    (blocks_in sent % u64_mod ≡ t.block_count % u64_mod)
    × ((pendings_in sent + backlog s.backfill) % u64_mod
        ≡ (t.pending_seen + t.initial_backfill_txs) % u64_mod)

record Conserved (s : Tasks) : Type 0 where
  agree : Agree s
  alive : s.feed.channel.receiver ≡ true
  unasked : Unasked s.backfill s.feed.telemetry

feed-alive :
    (e : MempoolEvent) (f : Feed)
    → f.channel.receiver ≡ true
    → feed e f ≡ (
      record f {
        channel = record f.channel {
          sent = f.channel.sent ++ e ∷ [];
          unread = f.channel.unread ++ e ∷ [];
        };
      },
      true,
    )
unfolding feed send
feed-alive e f h = rw h refl

Unasked-same :
    (b : BackfillTask) (t t' : RuntimeTelemetry)
    → t.initial_backfill_txs ≡ t'.initial_backfill_txs
    → Unasked b t
    → Unasked b t'
Unasked-same asking t t' e u = omega arith
Unasked-same (sending txs) t t' e u = tt
Unasked-same over t t' e u = tt

on_header-Conserved :
    (r : Option (Result String (Option RpcBlock))) (s : Tasks)
    → Conserved s
    → Conserved (on_header r s)
unfolding on_header record_block blocks_in pendings_in
on_header-Conserved none s c = record { agree = c.agree; alive = c.alive; unasked = c.unasked }
on_header-Conserved (some (err why)) s c = c
on_header-Conserved (some (ok none)) s c = c
on_header-Conserved (some (ok (some block))) s c =
    let e = new_block (block_update block) in
    let counted : Feed = record s.feed {
      telemetry =
          record_block (length (block_update block).included_txs) (block_update block).gas_used
            s.feed.telemetry;
    } in
    let blocks = blocks_in-snoc s.feed.channel.sent e in
    let pendings = pendings_in-snoc s.feed.channel.sent e in
    rw (feed-alive e counted c.alive) (record {
      agree = omega (arith, c.agree, blocks, pendings);
      alive = c.alive;
      unasked = Unasked-same s.backfill s.feed.telemetry _ refl c.unasked;
    })

on_transaction-Conserved :
    (tx : Option RpcTransaction) (s : Tasks) → Conserved s → Conserved (on_transaction tx s)
unfolding on_transaction record_pending_seen blocks_in pendings_in
on_transaction-Conserved none s c = record { agree = c.agree; alive = c.alive; unasked = c.unasked }
on_transaction-Conserved (some tx) s c =
    let e = pending_transaction (alloy_tx_to_pending_tx tx) in
    let counted : Feed = record s.feed { telemetry = record_pending_seen s.feed.telemetry } in
    let blocks = blocks_in-snoc s.feed.channel.sent e in
    let pendings = pendings_in-snoc s.feed.channel.sent e in
    rw (feed-alive e counted c.alive) (record {
      agree = omega (arith, c.agree, blocks, pendings);
      alive = c.alive;
      unasked = Unasked-same s.backfill s.feed.telemetry _ refl c.unasked;
    })

-- The inputs of the backfill, by where it stands.
on_backfill-Conserved :
    (r : Result TrackerError (List PendingTx)) (s : Tasks)
    → s.backfill ≡ asking
    → Conserved s
    → Conserved (on_backfill r s)
unfolding on_backfill record_backfill_size
on_backfill-Conserved (err e) s h c =
    let none_left : backlog s.backfill ≡ 0 = ap backlog h in
    record { agree = omega (arith, c.agree, none_left); alive = c.alive; unasked = tt }
on_backfill-Conserved (ok txs) s h c =
    let none_left : backlog s.backfill ≡ 0 = ap backlog h in
    let at_first : s.feed.telemetry.initial_backfill_txs ≡ 0 =
      subst (λ b. Unasked b s.feed.telemetry) h c.unasked in
    record { agree = omega (arith, c.agree, none_left, at_first); alive = c.alive; unasked = tt }

backfill_loop-Conserved :
    (txs : List PendingTx) (s : Tasks)
    → s.backfill ≡ sending txs
    → Conserved s
    → Conserved (backfill_loop false txs s)
unfolding backfill_loop blocks_in pendings_in
backfill_loop-Conserved [] s h c =
    let left : backlog s.backfill ≡ 0 = ap backlog h in
    record { agree = omega (arith, c.agree, left); alive = c.alive; unasked = tt }
backfill_loop-Conserved (tx ∷ txs) s h c =
    let e = pending_transaction tx in
    let left : backlog s.backfill ≡ length txs + 1 = ap backlog h ∙ omega arith in
    let blocks = blocks_in-snoc s.feed.channel.sent e in
    let pendings = pendings_in-snoc s.feed.channel.sent e in
    rw (feed-alive e s.feed c.alive) (record {
      agree = omega (arith, c.agree, blocks, pendings, left);
      alive = c.alive;
      unasked = tt;
    })

backfill_over-Conserved :
    (s : Tasks) → s.backfill ≡ asking → Conserved s → Conserved (record s { backfill = over })
backfill_over-Conserved s h c =
    let none_left : backlog s.backfill ≡ 0 = ap backlog h in
    record { agree = omega (arith, c.agree, none_left); alive = c.alive; unasked = tt }

backfill_shutdown-Conserved :
    (b : BackfillTask) (s : Tasks)
    → s.backfill ≡ b
    → Conserved s
    → Conserved (backfill_step b backfill_shutdown s)
backfill_shutdown-Conserved asking s h c = backfill_over-Conserved s h c
backfill_shutdown-Conserved (sending txs) s h c = c
backfill_shutdown-Conserved over s h c = c

backfill_answer-Conserved :
    (b : BackfillTask) (r : Result TrackerError (List PendingTx)) (s : Tasks)
    → s.backfill ≡ b
    → Conserved s
    → Conserved (backfill_step b (backfill_answer r) s)
backfill_answer-Conserved asking r s h c = on_backfill-Conserved r s h c
backfill_answer-Conserved (sending txs) r s h c = c
backfill_answer-Conserved over r s h c = c

backfill_turn-Conserved :
    (b : BackfillTask) (s : Tasks)
    → s.backfill ≡ b
    → Conserved s
    → Conserved (backfill_step b (backfill_turn false) s)
backfill_turn-Conserved asking s h c = c
backfill_turn-Conserved (sending txs) s h c = backfill_loop-Conserved txs s h c
backfill_turn-Conserved over s h c = c

step-Conserved : (i : Input) (s : Tasks) → Kept i → Conserved s → Conserved (step i s)
unfolding step
step-Conserved block_shutdown s k c = record {
  agree = c.agree;
  alive = c.alive;
  unasked = c.unasked;
}
step-Conserved (header r) s k c =
    if_either Conserved s.block_task (λ _. on_header-Conserved r s c) (λ _. c)
step-Conserved pending_shutdown s k c = record {
  agree = c.agree;
  alive = c.alive;
  unasked = c.unasked;
}
step-Conserved (transaction tx) s k c =
    if_either Conserved s.pending_task (λ _. on_transaction-Conserved tx s c) (λ _. c)
step-Conserved backfill_shutdown s k c = backfill_shutdown-Conserved s.backfill s refl c
step-Conserved (backfill_answer r) s k c = backfill_answer-Conserved s.backfill r s refl c
step-Conserved (backfill_turn true) s k c = cc
step-Conserved (backfill_turn false) s k c = backfill_turn-Conserved s.backfill s refl c
step-Conserved receiver_dropped s k c = cc

steps-Conserved :
    (inputs : List Input) (s : Tasks) → All Kept inputs → Conserved s → Conserved (steps inputs s)
unfolding steps
steps-Conserved [] s k c = c
steps-Conserved (i ∷ inputs) s k c =
    steps-Conserved inputs (step i s) k.1 (step-Conserved i s k.0 c)

-- As long as the tracker receives, and the backfill is not stopped in the middle of its loop, whatever
-- the node answers and in whatever order the three tasks take their turns: as many blocks are sent as
-- the telemetry counts, and the transactions sent, with those that the backfill has still to send, are
-- as many as the telemetry counts as pending and as backfill, all modulo 2^64.
pub steps-Agree : (inputs : List Input) → All Kept inputs → Agree (steps inputs started)
unfolding blocks_in pendings_in new_telemetry
steps-Agree inputs k =
    (steps-Conserved inputs started k
      (record { agree = (refl, refl); alive = refl; unasked = refl })).agree
