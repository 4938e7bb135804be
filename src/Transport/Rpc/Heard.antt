-- ===== src/Transport/Rpc/Heard.antt =====
-- crates/mempooloracle/src/transport/rpc.rs: the events that the tasks of a connection make of what they
-- hear, turn by turn.
use bulkmail.Prelude.{
  ◌≡◌, List, [], ◌∷◌, ◌++◌, Bool, true, false, none, some, ok, err, if◌then◌else◌,
}
use bulkmail.Mempool.Queues.{PendingTx}
use bulkmail.Mempool.Tracker.{MempoolEvent, pending_transaction, new_block}
use bulkmail.Transport.Rpc.{
  BackfillTask, asking, sending, over, Tasks, Input, block_shutdown, header, pending_shutdown,
  transaction, backfill_shutdown, backfill_answer, backfill_turn, receiver_dropped, block_update,
  alloy_tx_to_pending_tx,
}
use bulkmail.Transport.Rpc.Tracked.{Move, task, receive}

-- Who still listens: for blocks, for pending transactions, for the backfill's answer, and what is left of
-- that answer.
pub record Listening : Type 0 where
  pub blocks : Bool
  pub pending : Bool
  pub answer : Bool
  pub left : List PendingTx

abbrev pub all_listen : Listening
all_listen = record { blocks = true; pending = true; answer = true; left = [] }

abbrev pub when : Bool → MempoolEvent → List MempoolEvent
when true e = e ∷ []
when false e = []

abbrev pub first_of : List PendingTx → List MempoolEvent
first_of [] = []
first_of (tx ∷ txs) = pending_transaction tx ∷ []

abbrev pub rest_of : List PendingTx → List PendingTx
rest_of [] = []
rest_of (tx ∷ txs) = txs

-- The event of an input: a block that was there, a transaction, or the next one of the backfill.
abbrev pub event_of : Input → Listening → List MempoolEvent
event_of (header (some (ok (some block)))) l = when l.blocks (new_block (block_update block))
event_of (transaction (some tx)) l =
    when l.pending (pending_transaction (alloy_tx_to_pending_tx tx))
event_of (backfill_turn false) l = first_of l.left
event_of _ l = []

-- Who listens after an input: the end of a stream and the shutdown end a task, a failed request for a
-- block does not; the backfill listens for one answer.
abbrev pub after : Input → Listening → Listening
after block_shutdown l = record l { blocks = false }
after (header none) l = record l { blocks = false }
after pending_shutdown l = record l { pending = false }
after (transaction none) l = record l { pending = false }
after backfill_shutdown l = record l { answer = false }
after (backfill_answer (ok txs)) l = record l {
  answer = false;
  left = if l.answer then txs else l.left;
}
after (backfill_answer (err e)) l = record l { answer = false }
after (backfill_turn true) l = record l { left = [] }
after (backfill_turn false) l = record l { left = rest_of l.left }
after _ l = l

abbrev pub is_drop : Input → Bool
is_drop receiver_dropped = true
is_drop _ = false

-- The events of a run, until the tracker's end is dropped.
unfoldable pub heard : Listening → List Move → List MempoolEvent
heard l [] = []
heard l (receive ∷ ms) = heard l ms
heard l (task i ∷ ms) =
    let more = event_of i l ++ heard (after i l) ms in if is_drop i then [] else more

unfoldable pub is_asking : BackfillTask → Bool
is_asking asking = true
is_asking (sending txs) = false
is_asking over = false

unfoldable pub left_of : BackfillTask → List PendingTx
left_of asking = []
left_of (sending txs) = txs
left_of over = []

abbrev pub listening_of : Tasks → Listening
listening_of s = record {
  blocks = s.block_task;
  pending = s.pending_task;
  answer = is_asking s.backfill;
  left = left_of s.backfill;
}

-- What a turn sends while the tracker's end is there, and who listens after it.
abbrev pub Hears : List MempoolEvent → Listening → Tasks → Tasks → Type 0
Hears events l s s' =
    (s'.feed.channel.sent ≡ s.feed.channel.sent ++ events)
    × (listening_of s' ≡ l)
    × (s'.feed.channel.receiver ≡ true)

-- Once the tracker's end is dropped nothing more is sent.
abbrev pub Silent : Tasks → Tasks → Type 0
Silent s s' = (s'.feed.channel.sent ≡ s.feed.channel.sent) × (s'.feed.channel.receiver ≡ false)
