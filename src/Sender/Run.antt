-- ===== src/Sender/Run.antt =====
-- crates/bulkmail/src/sender.rs: the main loop. It waits for a free slot and a message, hands the
-- message to a task, and sleeps on an empty queue until `add_message` wakes it; a new block
-- interrupts it.
pub mod Wakeup
use bulkmail.Prelude.{
  ℕ, suc, ◌+◌, ◌-◌, ◌==◌, ltb, if◌then◌else◌, Bool, true, false, ◌&&◌, Option, none, some, Result,
  ok, err,
}
use bulkmail.Error.{
  Error, ChainError, RpcError, ℤ, negsuc, chain_error, rpc, error_resp, other_rpc,
  subscription_closed,
}
use bulkmail.Message.{Message}
use bulkmail.Clock.{TimeSource, now_ms}
use bulkmail.PriorityQueue.{MessageHeap, PriorityQueue}
use bulkmail.PriorityQueue
use bulkmail.Adapter.{ChainAdapter}
use bulkmail.Sender.{Sender, SenderState, process_message}
use bulkmail.Message as Msg

abbrev pub tx_failure_insufficient_funds : ℤ
tx_failure_insufficient_funds = negsuc 32002

-- Where the main loop stands in `process_next_message`: about to take a slot, past a look at an
-- empty queue, or asleep.
pub data Phase : Type 0 where
  looking checked asleep : Phase

-- `notifying` counts the calls of `add_message` between their push and their notification.
pub record MainLoop (W Q : Type 0) : Type 0 where
  pub sender : SenderState W Q
  pub phase : Phase
  pub notifying : ℕ

-- How the error of a task is reported; the message is dropped in either case.
pub data Report : Type 0 where
  insufficient_funds : Report
  failure : Error → Report

abbrev pub same_code : ℤ → Bool
same_code (negsuc n) = n == 32002
same_code (ℤ.pos n) = false

unfoldable pub report : Error → Report
report (chain_error (rpc (error_resp code))) =
    if same_code code then insufficient_funds else failure (chain_error (rpc (error_resp code)))
report e = failure e

module _ (A : ChainAdapter) (heap : MessageHeap) (time : TimeSource A.World) where
  abbrev pub Main : Type 0
  Main = MainLoop A.World (PriorityQueue heap)

  -- The first half of `add_message`, and its notification, which wakes the sleeper or is stored.
  unfoldable pub push_message : Message → Main → Main
  push_message msg m =
      let (now, w) = now_ms time m.sender.world in
      record m {
        sender = record m.sender {
          world = w;
          queue = PriorityQueue.push heap m.sender.queue msg now;
        };
        notifying = suc m.notifying;
      }

  abbrev wake : Phase → Main → Main
  wake asleep m = record m { phase = looking; notifying = m.notifying - 1 }
  wake looking m = record m {
    sender = record m.sender { message_ready = true };
    notifying = m.notifying - 1;
  }
  wake checked m = record m {
    sender = record m.sender { message_ready = true };
    notifying = m.notifying - 1;
  }

  unfoldable pub notify_one : Main → Main
  notify_one m = wake m.phase m

  -- With a free slot: the next message and its task, or the sight of an empty queue, which gives
  -- the slot back.
  unfoldable pub take_next : Main → Main × Option Message
  take_next m =
      if m.sender.max_in_flight == 0
      then (m, none)
      else elim (PriorityQueue.pop heap m.sender.queue) [
        | none ↦ (record m { phase = checked }, none)
        | some (msg, q) ↦ (
          record m {
            sender = record m.sender { queue = q; max_in_flight = m.sender.max_in_flight - 1 };
          },
          some msg,
        )
      ]

  -- `self.message_ready.notified().await`
  unfoldable pub await_message : Main → Main
  await_message m =
      if m.sender.message_ready
      then record m { sender = record m.sender { message_ready = false }; phase = looking }
      else record m { phase = asleep }

  -- A new block number, or the end of the block stream: the wait of `process_next_message` is
  -- dropped, and the replay protection synchronised.
  unfoldable pub on_block : Option ℕ → Main → Main × Result Error (Unit {0})
  on_block none m = (record m { phase = looking }, err subscription_closed)
  on_block (some number) m =
      let (w, r) = A.replay.sync m.sender.world in
      (record m { sender = record m.sender { world = w }; phase = looking }, r)

  -- A task, once its message is processed, drops its permit.
  unfoldable pub run_task :
      Message
      → SenderState A.World (PriorityQueue heap)
      → SenderState A.World (PriorityQueue heap) × Option Report
  unfolding report
  run_task msg s = elim (process_message A heap time Msg.max_retries msg s) [
    | none ↦ (s, none)
    | some (r, s') ↦ (
      record s' { max_in_flight = s'.max_in_flight + 1 },
      elim r [ ok _ ↦ none | err e ↦ some (report e) ],
    )
  ]
