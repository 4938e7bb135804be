-- ===== src/Tests/Unit/Flows.antt =====
-- The tests of crates/bulkmail/tests/adapter_flow.rs: the sender over adapters that confirm, fail to
-- price, drop once, or always drop. Each is an instance of `flow`.
use bulkmail.Prelude.{
  ℕ, suc, ◌≡◌, refl, ltb, ◌==◌, ◌&&◌, not, if◌then◌else◌, Bool, true, false, List, [], ◌∷◌, Option,
  none, some, Result, ok, err, saturating_add_u64, add_u64,
}
use bulkmail.Error.{Error, gas_price_error, subscription_closed}
use bulkmail.Message.{
  default, effective_priority, deadline_factor, age_factor, is_expired, increment_retry,
}
use bulkmail.Clock.{TimeSource, now_ms, instant, elapsed}
use bulkmail.PriorityQueue.{push, pop, new as new_queue}
use bulkmail.PriorityQueue.ListHeap.{list_heap, pop_max, take_max}
use bulkmail.Adapter.{
  ChainAdapter, SendOutcome, PendingTransaction, RetryDecision, confirmed, dropped, confirmed_at,
  resubmit, requeue, abandon,
}
use bulkmail.Sender.{
  new, add_message, process_message, after_fee, send_and_watch, attempt, after_answer, after_send,
  after_drop, decide,
}
use bulkmail.Sender.Run.{Main, looking, take_next, run_task, on_block}

-- The counters and flags of the mocked parts.
record Flow : Type 0 where
  attempts : ℕ
  next_value : ℕ
  released : Bool
  called : Bool

abbrev Decision : Type 0
Decision = Flow → PendingTransaction ℕ ℕ ℕ → Flow × RetryDecision ℕ ℕ

-- By the fee, the outcome of each attempt, and the retry strategy.
abbrev flow : Result Error ℕ → (ℕ → SendOutcome ℕ) → Decision → ChainAdapter
flow fee outcome retry = record {
  World = Flow;
  FeeParams = ℕ;
  ReplayToken = ℕ;
  TxId = ℕ;
  client = record {
    subscribe_new_blocks = λ w. (ok (1 ∷ []), w);
    get_block_number = λ w. (ok 0, w);
    send_transaction =
        λ msg fee token w. (ok (outcome w.attempts), record w { attempts = suc w.attempts });
    get_transaction_status = λ id w. (ok (confirmed_at 1), w);
  };
  fees = record {
    get_fee_params = λ priority w. (fee, w);
    update_on_confirmation = λ time fee w. w;
    bump_fee = λ current. saturating_add_u64 current 1;
    get_base_fee = λ w. 1;
  };
  replay = record {
    next = λ w. (record w { next_value = add_u64 w.next_value 1 }, w.next_value);
    sync = λ w. (w, ok tt);
    release = λ token w. record w { released = true };
  };
  retry = record { handle_dropped = λ p w. retry w p; handle_confirmed = λ p time w. w };
}

abbrev silent : TimeSource Flow
silent = record { since_epoch = λ w. (some 5_000_000_000, w); monotonic = λ w. (0, w) }

abbrev fresh : ℕ → Flow
fresh start = record { attempts = 0; next_value = start; released = false; called = false }

-- The world once the main loop has taken the message that was added, and its task has processed it.
abbrev processed : Result Error ℕ → (ℕ → SendOutcome ℕ) → Decision → ℕ → Option Flow
processed fee outcome retry start =
    let A = flow fee outcome retry in
    let added =
      add_message A list_heap silent (default 5000) (new A list_heap silent (fresh start)) in
    let (m, task) =
      take_next A list_heap silent (record { sender = added; phase = looking; notifying = 0 }) in
    elim task [ none ↦ none | some msg ↦ some (run_task A list_heap silent msg m.sender).0.world ]

abbrev expect : Option Flow → (Flow → Bool) → Bool
expect none test = false
expect (some w) test = test w

abbrev closed : Result Error (Unit {0}) → Bool
closed (err subscription_closed) = true
closed _ = false

abbrev happy : ChainAdapter
happy = flow (ok 1) (λ _. confirmed 1) (λ w p. (w, abandon))

-- How `run` ends on the rest of a stream.
abbrev run_result : List ℕ → Main happy list_heap silent → Result Error (Unit {0})
run_result [] m = (on_block happy list_heap silent none m).1
run_result (number ∷ numbers) m =
    let (m', synced) = on_block happy list_heap silent (some number) m in
    let rest = run_result numbers m' in elim synced [ ok u ↦ rest | err why ↦ err why ]

abbrev idle : Main happy list_heap silent
idle = record { sender = new happy list_heap silent (fresh 0); phase = looking; notifying = 0 }

abbrev sender_processes_message_with_adapter : Bool
sender_processes_message_with_adapter =
    expect (processed (ok 1) (λ _. confirmed 1) (λ w p. (w, abandon)) 0) (λ w. ltb 0 w.attempts)
    && closed (run_result (1 ∷ []) idle)

sender_processes_message_with_adapter_passes : sender_processes_message_with_adapter ≡ true
unfolding new default now_ms instant elapsed push pop new_queue list_heap is_expired take_next
    run_task on_block process_message attempt
sender_processes_message_with_adapter_passes = refl

abbrev releases_replay_token_on_fee_error : Bool
releases_replay_token_on_fee_error =
    expect (processed (err (gas_price_error "fail")) (λ _. confirmed 1) (λ w p. (w, abandon)) 0)
      (λ w. w.released)

releases_replay_token_on_fee_error_passes : releases_replay_token_on_fee_error ≡ true
unfolding new add_message default now_ms instant elapsed push pop new_queue list_heap pop_max
    take_max effective_priority deadline_factor age_factor is_expired increment_retry take_next
    run_task on_block process_message after_fee send_and_watch attempt after_answer after_send
    after_drop decide
releases_replay_token_on_fee_error_passes = refl

-- `RetryResubmit`: the first drop is sent again with the same token, a later one is abandoned.
abbrev resubmit_once : Decision
resubmit_once w p =
    let called = record w { called = true } in
    if w.called then (called, abandon) else (called, resubmit (add_u64 p.fee 1) p.replay_token)

abbrev first_dropped : ℕ → SendOutcome ℕ
first_dropped n = if n == 0 then dropped 1 else confirmed 1

abbrev resubmit_reuses_replay_token : Bool
resubmit_reuses_replay_token =
    expect (processed (ok 1) first_dropped resubmit_once 100)
      (λ w. ltb 1 w.attempts && not w.released)

resubmit_reuses_replay_token_passes : resubmit_reuses_replay_token ≡ true
unfolding new default now_ms instant elapsed push pop new_queue list_heap is_expired increment_retry
    take_next run_task process_message attempt
resubmit_reuses_replay_token_passes = refl

abbrev requeue_releases_replay_token : Bool
requeue_releases_replay_token =
    expect (processed (ok 1) (λ _. dropped 1) (λ w p. (w, requeue)) 7) (λ w. w.released)

requeue_releases_replay_token_passes : requeue_releases_replay_token ≡ true
unfolding new default now_ms push pop new_queue list_heap is_expired increment_retry take_next
    run_task process_message attempt
requeue_releases_replay_token_passes = refl

abbrev abandon_releases_replay_token : Bool
abandon_releases_replay_token =
    expect (processed (ok 1) (λ _. dropped 1) (λ w p. (w, abandon)) 11) (λ w. w.released)

abandon_releases_replay_token_passes : abandon_releases_replay_token ≡ true
unfolding new default push pop new_queue list_heap is_expired increment_retry take_next run_task
    process_message attempt
abandon_releases_replay_token_passes = refl
