-- ===== src/Transport/Rpc/Turns.antt =====
-- crates/mempooloracle/src/transport/rpc.rs: each turn of a task, by what it hears.
use Prim.Native.String.{String}
use mathlib.Core.List.{append-nil}
use bulkmail.Prelude.{
  ◌≡◌, refl, sym, subst, arith, ap, ◌∙◌, List, [], ◌∷◌, ◌++◌, Bool, true, false, Option, none, some,
  Result, ok, err, Bool-cases, inl, inr,
}
use bulkmail.Mempool.Queues.{PendingTx}
use bulkmail.Transport.{TrackerError, send, feed}
use bulkmail.Transport.Rpc.{
  RpcTransaction, RpcBlock, BackfillTask, asking, sending, over, Tasks, Input, block_shutdown,
  header, pending_shutdown, transaction, backfill_shutdown, backfill_answer, backfill_turn,
  receiver_dropped, on_header, on_transaction, on_backfill, backfill_loop, backfill_step, step,
}
use bulkmail.Transport.Rpc.Heard.{
  event_of, after, is_drop, is_asking, left_of, listening_of, Hears, Silent,
}

quiet-Hears :
    (s s' : Tasks)
    → s'.feed ≡ s.feed
    → s.feed.channel.receiver ≡ true
    → Hears [] (listening_of s') s s'
quiet-Hears s s' e h = (
  ap (λ f. f.channel.sent) e ∙ sym (append-nil s.feed.channel.sent),
  refl,
  ap (λ f. f.channel.receiver) e ∙ h,
)

on_header-Hears :
    (r : Option (Result String (Option RpcBlock))) (s : Tasks)
    → s.feed.channel.receiver ≡ true
    → s.block_task ≡ true
    → Hears
        (event_of (header r) (listening_of s))
        (after (header r) (listening_of s))
        s
        (on_header r s)
unfolding on_header feed send
on_header-Hears none s h b = quiet-Hears s _ refl h
on_header-Hears (some (err why)) s h b = quiet-Hears s _ refl h
on_header-Hears (some (ok none)) s h b = quiet-Hears s _ refl h
on_header-Hears (some (ok (some block))) s h b = rw (h, b) (refl, refl, refl)

on_transaction-Hears :
    (tx : Option RpcTransaction) (s : Tasks)
    → s.feed.channel.receiver ≡ true
    → s.pending_task ≡ true
    → Hears
        (event_of (transaction tx) (listening_of s))
        (after (transaction tx) (listening_of s))
        s
        (on_transaction tx s)
unfolding on_transaction feed send
on_transaction-Hears none s h b = quiet-Hears s _ refl h
on_transaction-Hears (some tx) s h b = rw (h, b) (refl, refl, refl)

pub unsent : (s : Tasks) → s.feed.channel.sent ≡ s.feed.channel.sent ++ []
unsent s = sym (append-nil s.feed.channel.sent)

backfill_shutdown-Hears :
    (b : BackfillTask) (s : Tasks)
    → s.feed.channel.receiver ≡ true
    → s.backfill ≡ b
    → Hears [] (after backfill_shutdown (listening_of s)) s (backfill_step b backfill_shutdown s)
unfolding is_asking left_of
backfill_shutdown-Hears asking s h e = (unsent s, simp e refl, h)
backfill_shutdown-Hears (sending txs) s h e = (unsent s, simp e refl, h)
backfill_shutdown-Hears over s h e = (unsent s, simp e refl, h)

backfill_answer-Hears :
    (b : BackfillTask) (r : Result TrackerError (List PendingTx)) (s : Tasks)
    → s.feed.channel.receiver ≡ true
    → s.backfill ≡ b
    → Hears []
        (after (backfill_answer r) (listening_of s))
        s
        (backfill_step b (backfill_answer r) s)
unfolding is_asking left_of on_backfill
backfill_answer-Hears asking (ok txs) s h e = (unsent s, simp e refl, h)
backfill_answer-Hears asking (err why) s h e = (unsent s, simp e refl, h)
backfill_answer-Hears (sending txs) (ok new) s h e = (unsent s, simp e refl, h)
backfill_answer-Hears (sending txs) (err why) s h e = (unsent s, simp e refl, h)
backfill_answer-Hears over (ok txs) s h e = (unsent s, simp e refl, h)
backfill_answer-Hears over (err why) s h e = (unsent s, simp e refl, h)

backfill_turn-Hears :
    (b : BackfillTask) (stopped : Bool) (s : Tasks)
    → s.feed.channel.receiver ≡ true
    → s.backfill ≡ b
    → Hears
        (event_of (backfill_turn stopped) (listening_of s))
        (after (backfill_turn stopped) (listening_of s))
        s
        (backfill_step b (backfill_turn stopped) s)
unfolding is_asking left_of backfill_loop feed send
backfill_turn-Hears asking true s h e = (unsent s, simp e refl, h)
backfill_turn-Hears asking false s h e = simp e (unsent s, refl, h)
backfill_turn-Hears (sending []) true s h e = (unsent s, simp e refl, h)
backfill_turn-Hears (sending []) false s h e = simp e (unsent s, refl, h)
backfill_turn-Hears (sending (tx ∷ txs)) true s h e = (unsent s, simp e refl, h)
backfill_turn-Hears (sending (tx ∷ txs)) false s h e = simp (h, e) (refl, refl, refl)
backfill_turn-Hears over true s h e = (unsent s, simp e refl, h)
backfill_turn-Hears over false s h e = simp e (unsent s, refl, h)

pub step-Hears :
    (i : Input) (s : Tasks)
    → s.feed.channel.receiver ≡ true
    → is_drop i ≡ false
    → Hears (event_of i (listening_of s)) (after i (listening_of s)) s (step i s)
unfolding step
step-Hears block_shutdown s h d = (unsent s, refl, h)
step-Hears (header none) s h d = elim (Bool-cases s.block_task) [
  | inl on ↦ simp on (on_header-Hears none s h on)
  | inr off ↦ simp off (unsent s, refl, h)
]
step-Hears (header (some (err why))) s h d = elim (Bool-cases s.block_task) [
  | inl on ↦ simp on (unsent s, refl, h)
  | inr off ↦ simp off (unsent s, refl, h)
]
step-Hears (header (some (ok none))) s h d = elim (Bool-cases s.block_task) [
  | inl on ↦ simp on (unsent s, refl, h)
  | inr off ↦ simp off (unsent s, refl, h)
]
step-Hears (header (some (ok (some block)))) s h d = elim (Bool-cases s.block_task) [
  | inl on ↦
      let e : step (header (some (ok (some block)))) s ≡ on_header (some (ok (some block))) s =
        rw on refl in
      subst (Hears (event_of (header (some (ok (some block)))) (listening_of s)) (listening_of s) s)
        (sym e) (on_header-Hears (some (ok (some block))) s h on)
  | inr off ↦ simp off (unsent s, refl, h)
]
step-Hears pending_shutdown s h d = (unsent s, refl, h)
step-Hears (transaction none) s h d = elim (Bool-cases s.pending_task) [
  | inl on ↦ simp on (on_transaction-Hears none s h on)
  | inr off ↦ simp off (unsent s, refl, h)
]
step-Hears (transaction (some tx)) s h d = elim (Bool-cases s.pending_task) [
  | inl on ↦
      let e : step (transaction (some tx)) s ≡ on_transaction (some tx) s = rw on refl in
      subst (Hears (event_of (transaction (some tx)) (listening_of s)) (listening_of s) s) (sym e)
        (on_transaction-Hears (some tx) s h on)
  | inr off ↦ simp off (unsent s, refl, h)
]
step-Hears backfill_shutdown s h d = backfill_shutdown-Hears s.backfill s h refl
step-Hears (backfill_answer r) s h d = backfill_answer-Hears s.backfill r s h refl
step-Hears (backfill_turn stopped) s h d = backfill_turn-Hears s.backfill stopped s h refl
step-Hears receiver_dropped s h d = absurd (cc)

pub step-Silent : (i : Input) (s : Tasks) → s.feed.channel.receiver ≡ false → Silent s (step i s)
unfolding step on_header on_transaction on_backfill backfill_loop feed send
step-Silent block_shutdown s h = (refl, h)
step-Silent (header none) s h = ground arith
step-Silent (header (some (err why))) s h = ground arith
step-Silent (header (some (ok none))) s h = ground arith
step-Silent (header (some (ok (some block)))) s h = ground arith
step-Silent pending_shutdown s h = (refl, h)
step-Silent (transaction none) s h = ground arith
step-Silent (transaction (some tx)) s h = ground arith
step-Silent backfill_shutdown s h = ground arith
step-Silent (backfill_answer (ok txs)) s h = ground arith
step-Silent (backfill_answer (err why)) s h = ground arith
step-Silent (backfill_turn true) s h = ground arith
step-Silent (backfill_turn false) s h = ground arith
step-Silent receiver_dropped s h = (refl, refl)

pub dropped : (i : Input) (s : Tasks) → is_drop i ≡ true → Silent s (step i s)
unfolding step
dropped receiver_dropped s d = (refl, refl)
dropped block_shutdown s d = absurd (cc)
dropped (header r) s d = absurd (cc)
dropped pending_shutdown s d = absurd (cc)
dropped (transaction tx) s d = absurd (cc)
dropped backfill_shutdown s d = absurd (cc)
dropped (backfill_answer r) s d = absurd (cc)
dropped (backfill_turn stopped) s d = absurd (cc)
