-- ===== src/Tests/Unit/Senders.antt =====
-- The unit tests of crates/bulkmail/src/sender.rs. What they mock is the chain of `mock`.
use bulkmail.Prelude.{
  ℕ, zero, suc, ◌≡◌, refl, ltb, ◌==◌, ◌&&◌, not, Bool, true, false, List, [], ◌∷◌, Option, none,
  some, Result, ok, err,
}
use bulkmail.Error.{Error, subscription}
use bulkmail.Message.{Message, default, effective_priority, deadline_factor, age_factor, is_expired}
use bulkmail.GasPrice as Gas
use bulkmail.Clock.{TimeSource, now_ms}
use bulkmail.Chain.{ChainClient}
use bulkmail.PriorityQueue.{len, push, pop, new as new_queue}
use bulkmail.PriorityQueue.ListHeap.{list_heap, pop_max, take_max}
use bulkmail.Adapter.{ChainAdapter, forward}
use bulkmail.Adapter.Ethereum.{
  EthWorld, eth, eth_time, bump_by_percent, subscribe_new_blocks, get_fee_params, send_transaction,
}
use bulkmail.Sender.{Sender, new, add_message, process_message, attempt}
use bulkmail.Sender.Run.{
  Main, Phase, looking, checked, asleep, take_next, await_message, notify_one, on_block, run_task,
}
use bulkmail.Tests.{still}

-- A chain whose account is at nonce 0, whose block stream is closed, and that refuses transactions.
abbrev mock : ChainClient ℕ
mock = record {
  id = 1337;
  subscribe_new_blocks = λ e. (ok [], e);
  get_block_number = λ e. (ok 0, e);
  get_account_nonce = λ a e. (ok 0, e);
  get_receipt = λ h e. (ok none, e);
  send_transaction = λ tx e. (err (subscription "injected"), suc e);
}

abbrev adapter : ChainAdapter
adapter = eth mock 0

abbrev clock : TimeSource (EthWorld ℕ)
clock = eth_time still

abbrev base : EthWorld ℕ
base = record {
  env = 0;
  nonces = record { current = 0; in_flight = [] };
  gas = record { confirmation_times = []; priority_fee = Gas.initial_priority_fee };
}

abbrev make_sender : Sender adapter list_heap clock
make_sender = new adapter list_heap clock base

abbrev added : ℕ → Sender adapter list_heap clock → Sender adapter list_heap clock
added zero s = s
added (suc n) s = added n (add_message adapter list_heap clock (default 0) s)

abbrev main_loop : Sender adapter list_heap clock → Main adapter list_heap clock
main_loop s = record { sender = s; phase = looking; notifying = 0 }

abbrev finished : Phase → Bool
finished looking = true
finished checked = false
finished asleep = false

abbrev is_err : Result Error (Unit {0}) → Bool
is_err (ok u) = false
is_err (err why) = true

abbrev is_some : Option Message → Bool
is_some none = false
is_some (some m) = true

-- `run` on a stream: its first block, or its end.
abbrev first_of : Result Error (List ℕ) → Main adapter list_heap clock → Result Error (Unit {0})
first_of (err why) m = err why
first_of (ok []) m = (on_block adapter list_heap clock none m).1
first_of (ok (number ∷ numbers)) m = (on_block adapter list_heap clock (some number) m).1

abbrev test_bump_zero_base : Bool
test_bump_zero_base = bump_by_percent 0 20 == 0

test_bump_zero_base_passes : test_bump_zero_base ≡ true
unfolding bump_by_percent
test_bump_zero_base_passes = refl

abbrev test_bump_twenty_percent : Bool
test_bump_twenty_percent = bump_by_percent 100 20 == 120

test_bump_twenty_percent_passes : test_bump_twenty_percent ≡ true
unfolding bump_by_percent
test_bump_twenty_percent_passes = refl

abbrev test_bump_zero_percent : Bool
test_bump_zero_percent = bump_by_percent 500 0 == 500

test_bump_zero_percent_passes : test_bump_zero_percent ≡ true
unfolding bump_by_percent
test_bump_zero_percent_passes = refl

abbrev test_bump_is_an_increase_not_a_fraction : Bool
test_bump_is_an_increase_not_a_fraction =
    let fee : ℕ = 1_000_000_000 in
    let bumped = bump_by_percent fee 20 in ltb fee bumped && bumped == 1_200_000_000

test_bump_is_an_increase_not_a_fraction_passes : test_bump_is_an_increase_not_a_fraction ≡ true
unfolding bump_by_percent
test_bump_is_an_increase_not_a_fraction_passes = refl

abbrev test_new_has_empty_queue : Bool
test_new_has_empty_queue = len list_heap make_sender.queue == 0

test_new_has_empty_queue_passes : test_new_has_empty_queue ≡ true
unfolding new len new_queue list_heap
test_new_has_empty_queue_passes = refl

abbrev test_add_message_enqueues : Bool
test_add_message_enqueues = len list_heap (added 1 make_sender).queue == 1

test_add_message_enqueues_passes : test_add_message_enqueues ≡ true
unfolding bump_by_percent new add_message default now_ms len push pop new_queue list_heap pop_max
    take_max effective_priority deadline_factor age_factor take_next await_message notify_one
    on_block subscribe_new_blocks forward run_task process_message is_expired get_fee_params
    Gas.get_gas_price attempt send_transaction
test_add_message_enqueues_passes = refl

abbrev test_add_multiple_messages : Bool
test_add_multiple_messages = len list_heap (added 4 make_sender).queue == 4

test_add_multiple_messages_passes : test_add_multiple_messages ≡ true
unfolding bump_by_percent new add_message default now_ms len push pop new_queue list_heap pop_max
    take_max effective_priority deadline_factor age_factor take_next await_message notify_one
    on_block subscribe_new_blocks forward run_task process_message is_expired get_fee_params
    Gas.get_gas_price attempt send_transaction
test_add_multiple_messages_passes = refl

abbrev test_run_errors_when_block_stream_closes : Bool
test_run_errors_when_block_stream_closes =
    is_err (first_of (adapter.client.subscribe_new_blocks base).0 (main_loop make_sender))

test_run_errors_when_block_stream_closes_passes : test_run_errors_when_block_stream_closes ≡ true
unfolding on_block subscribe_new_blocks
test_run_errors_when_block_stream_closes_passes = refl

abbrev test_process_next_message_blocks_when_queue_empty : Bool
test_process_next_message_blocks_when_queue_empty =
    let (looked, task) = take_next adapter list_heap clock (main_loop make_sender) in
    let waiting = await_message adapter list_heap clock looked in
    not (is_some task)
    && not (finished waiting.phase)
    && finished (notify_one adapter list_heap clock waiting).phase

test_process_next_message_blocks_when_queue_empty_passes :
    test_process_next_message_blocks_when_queue_empty ≡ true
unfolding new pop new_queue list_heap take_next await_message notify_one
test_process_next_message_blocks_when_queue_empty_passes = refl

abbrev test_process_next_message_pops_and_attempts_send : Bool
test_process_next_message_pops_and_attempts_send =
    let msg : Message = record (default 0) { to = some 0; gas = 21000 } in
    let sender = add_message adapter list_heap clock msg make_sender in
    let (m, task) = take_next adapter list_heap clock (main_loop sender) in
    len list_heap sender.queue == 1 && (elim task [
      | none ↦ false
      | some taken ↦ len list_heap (run_task adapter list_heap clock taken m.sender).0.queue == 0
    ])

test_process_next_message_pops_and_attempts_send_passes :
    test_process_next_message_pops_and_attempts_send ≡ true
unfolding new default len push pop new_queue list_heap take_next run_task process_message is_expired
    get_fee_params Gas.get_gas_price attempt send_transaction
test_process_next_message_pops_and_attempts_send_passes = refl
