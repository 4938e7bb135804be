-- ===== src/PriorityQueue.antt =====
-- crates/bulkmail/src/priority_queue.rs: messages ordered by the effective priority that they had
-- when they were pushed. The standard library's `BinaryHeap` is an interface with its documented
-- behaviour: which of several greatest entries comes first is left open.
pub mod Heap
pub mod Order
pub mod Drain
pub mod ListHeap
use Prim.Native.Nat.{compare, Ordering}
use Heap.{BinaryHeap}
use bulkmail.Prelude.{ℕ, ◌≡◌, Bool, ◌==◌, Option, none, some}
use bulkmail.Message.{Message, effective_priority as priority_at}

pub record PrioritizedMessage : Type 0 where
  pub message : Message
  pub effective_priority : ℕ

-- `Ord::cmp`
abbrev pub cmp : PrioritizedMessage → PrioritizedMessage → Ordering
cmp a b = compare a.effective_priority b.effective_priority

-- `PartialEq::eq`
abbrev pub eq : PrioritizedMessage → PrioritizedMessage → Bool
eq a b = a.effective_priority == b.effective_priority

-- A heap of such entries, as the standard library has it.
abbrev pub MessageHeap : Type 1
MessageHeap = BinaryHeap PrioritizedMessage cmp

module _ (heap : MessageHeap) where
  abbrev pub PriorityQueue : Type 0
  PriorityQueue = heap.Carrier

  unfoldable pub new : PriorityQueue
  new = heap.empty

  abbrev pub prioritized : Message → ℕ → PrioritizedMessage
  prioritized message now_ms = record {
    message = message;
    effective_priority = priority_at message now_ms;
  }

  unfoldable pub push : PriorityQueue → Message → ℕ → PriorityQueue
  push q message now_ms = heap.push (prioritized message now_ms) q

  unfoldable pub pop : PriorityQueue → Option (Message × PriorityQueue)
  pop q = elim (heap.pop q) [ none ↦ none | some (pm, q') ↦ some (pm.message, q') ]

  unfoldable pub is_empty : PriorityQueue → Bool
  is_empty q = heap.len q == 0

  unfoldable pub len : PriorityQueue → ℕ
  len q = heap.len q
