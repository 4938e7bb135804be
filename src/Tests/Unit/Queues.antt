-- ===== src/Tests/Unit/Queues.antt =====
-- The unit tests of crates/bulkmail/src/priority_queue.rs, over a heap that is a list.
use Prim.Native.Nat.{Ordering}
use bulkmail.Prelude.{ℕ, ◌≡◌, refl, ◌==◌, ◌&&◌, not, Bool, true, false, List, [], ◌∷◌, none, some}
use bulkmail.Message
use bulkmail.Message.{Message, effective_priority, deadline_factor, age_factor}
use bulkmail.PriorityQueue.{PrioritizedMessage, PriorityQueue, new, push, pop, is_empty, len, cmp}
use bulkmail.PriorityQueue.ListHeap.{list_heap}

abbrev test_now_ms : ℕ
test_now_ms = 1_000_000

abbrev of_priority : ℕ → Message
of_priority priority = Message.new none 0 0 [] priority none test_now_ms

-- The loops of the test: the pushes, and the pops with what they give, until the queue is empty.
abbrev push_all : List ℕ → PriorityQueue list_heap → PriorityQueue list_heap
push_all [] queue = queue
push_all (priority ∷ priorities) queue =
    push_all priorities
      (push list_heap queue (Message.new (some 0) 21000 0 [] priority none test_now_ms) test_now_ms)

abbrev pops : List ℕ → PriorityQueue list_heap → Bool
pops [] queue = is_empty list_heap queue
pops (priority ∷ priorities) queue = elim (pop list_heap queue) [
  | none ↦ false
  | some (message, rest) ↦ message.priority == priority && pops priorities rest
]

abbrev less : Ordering → Bool
less Ordering.lt = true
less Ordering.eq = false
less Ordering.gt = false

abbrev test_priority_queue_pops_in_priority_order : Bool
test_priority_queue_pops_in_priority_order =
    let queue = push_all (0 ∷ 1 ∷ 2 ∷ []) (new list_heap) in
    len list_heap queue == 3 && not (is_empty list_heap queue) && pops (2 ∷ 1 ∷ 0 ∷ []) queue

test_priority_queue_pops_in_priority_order_passes :
    test_priority_queue_pops_in_priority_order ≡ true
unfolding Message.new new push pop is_empty len list_heap effective_priority deadline_factor
test_priority_queue_pops_in_priority_order_passes = refl

abbrev test_prioritized_message_ordering : Bool
test_prioritized_message_ordering =
    let pm1 : PrioritizedMessage = record { message = of_priority 1; effective_priority = 1 } in
    let pm2 : PrioritizedMessage = record { message = of_priority 2; effective_priority = 2 } in
    less (cmp pm1 pm2)

test_prioritized_message_ordering_passes : test_prioritized_message_ordering ≡ true
test_prioritized_message_ordering_passes = refl
