-- ===== src/Tests/Sending.antt =====
-- crates/bulkmail/src/sender.rs and crates/bulkmail/src/adapter/ethereum.rs on that network.
use bulkmail.Prelude.{ℕ, ◌≤◌, ◌<◌, ◌≡◌, ◌⊎◌, refl, [], ◌∷◌, false, length, arith, ok}
use bulkmail.Message.{effective_priority, max_retries}
use bulkmail.NonceManager.{NonceState, get_next_available_nonce}
use bulkmail.Clock.{TimeSource, now_ms}
use bulkmail.PriorityQueue.{new as new_queue}
use bulkmail.PriorityQueue.ListHeap.{list_heap, pop_max}
use bulkmail.Prelude.{All}
use bulkmail.Adapter.{ChainAdapter}
use bulkmail.Adapter.Ethereum.{EthWorld, EthFeeParams, EthPending, eth, eth_time, get_fee_params}
use bulkmail.Adapter.Ethereum.Logged.{Log, logged, logged_time}
use bulkmail.Adapter.Ethereum.Replace.{Handled, process_message-Handled}
use bulkmail.Sender.{Sender, process_message}
use bulkmail.Sender.Counted.{counted, counted_time, fresh}
use bulkmail.Sender.Settles.{Processed, process_message-Processed, Counting}
use bulkmail.Sender.Tasks.{System, start, Reach, here, take, next}
use bulkmail.Sender.Tasks.Held.{Apart, Holds}
use bulkmail.Sender.Tasks.Apart.{Reach-Apart}
use bulkmail.Sender.Run.{Main, looking, checked, asleep, take_next, await_message}
use bulkmail.Sender.Run.Wakeup.{Reach-awake, look, await}
use bulkmail.Sender.Run.Wakeup as Wakeup
use bulkmail.Tests.{urgent, two_in_flight, busy, tip, network, still}
use bulkmail.PriorityQueue.{pop as pop_queue}

abbrev world : EthWorld ℕ
world = record { env = 0; nonces = two_in_flight; gas = busy }

abbrev logged_world : EthWorld (ℕ × Log)
logged_world = record { env = (0, []); nonces = two_in_flight; gas = busy }

abbrev adapter : ChainAdapter
adapter = eth network 1

abbrev clock : TimeSource (EthWorld ℕ)
clock = eth_time still

abbrev sender : Sender adapter list_heap clock
sender = record {
  world = world;
  queue = new_queue list_heap;
  max_in_flight = 16;
  message_ready = false;
}

abbrev counting : Counting adapter list_heap clock
counting = record {
  world = (world, fresh);
  queue = new_queue list_heap;
  max_in_flight = 16;
  message_ready = false;
}

process_message-Processed_example :
    Processed adapter list_heap clock fresh
      (process_message (counted adapter) list_heap (counted_time clock) max_retries urgent counting)
process_message-Processed_example =
    process_message-Processed adapter list_heap clock urgent counting

abbrev logging : Sender (eth (logged network) 1) list_heap (eth_time (logged_time still))
logging = record {
  world = logged_world;
  queue = new_queue list_heap;
  max_in_flight = 16;
  message_ready = false;
}

process_message-Handled_example :
    (fee : EthFeeParams) × (get_fee_params busy
        (effective_priority urgent (now_ms (eth_time (logged_time still)) logged_world).0)
      ≡ ok fee)
    × Handled network 1 list_heap still urgent fee logging (
        process_message
          (eth (logged network) 1)
          list_heap
          (eth_time (logged_time still))
          max_retries
          urgent
          logging)
process_message-Handled_example =
    process_message-Handled network 1 list_heap still urgent logging (omega arith)

abbrev dropped_once : EthPending
dropped_once = record {
  msg = urgent;
  tx_id = 99;
  fee = tip;
  replay_token = 5;
  created_at = 0;
  replacement_count = 0;
}

abbrev idle : NonceState
idle = record { current = 5; in_flight = [] }

abbrev one_task : System
one_task = record {
  nonces = (get_next_available_nonce idle).0;
  tasks =
      record {
        msg = urgent;
        fee = tip;
        nonce = (get_next_available_nonce idle).1;
        replacement_count = 0;
      }
      ∷ [];
  permits = 15;
}

one_taken : Reach (start idle) one_task
one_taken = next here (take urgent tip (omega arith) (omega arith) refl)

Reach-Apart_example :
    Apart one_task.tasks × All (Holds one_task.nonces) one_task.tasks × (length one_task.tasks ≤ 16)
Reach-Apart_example = Reach-Apart 5 one_taken

abbrev main : Main adapter list_heap clock
main = record { sender = sender; phase = looking; notifying = 0 }

abbrev looked : Main adapter list_heap clock
looked = (take_next adapter list_heap clock main).0

abbrev sleeping : Main adapter list_heap clock
sleeping = await_message adapter list_heap clock looked

looked_phase : looked.phase ≡ checked
unfolding take_next pop_queue new_queue pop_max list_heap
looked_phase = refl

sleeping_phase : sleeping.phase ≡ asleep
unfolding await_message take_next pop_queue new_queue pop_max list_heap
sleeping_phase = refl

fell_asleep : Wakeup.Reach adapter list_heap clock main sleeping
fell_asleep =
    Wakeup.Reach.next (Wakeup.Reach.next Wakeup.Reach.here (look refl refl))
      (await looked_phase refl)

Reach-awake_example : (list_heap.items sleeping.sender.queue ≡ []) ⊎ (0 < sleeping.notifying)
Reach-awake_example = Reach-awake adapter list_heap clock refl fell_asleep sleeping_phase
