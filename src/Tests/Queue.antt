-- ===== src/Tests/Queue.antt =====
-- crates/bulkmail/src/priority_queue.rs over a heap that is a list.
use bulkmail.Prelude.{ℕ, List, [], ◌∷◌, length}
use bulkmail.Message.{Message}
use bulkmail.PriorityQueue.{new}
use bulkmail.PriorityQueue.ListHeap.{list_heap}
use bulkmail.PriorityQueue.Drain.{Arranges, entries, drain, push_all, drain-push_all}
use bulkmail.Tests.{urgent, patient}

abbrev batch : List (Message × ℕ)
batch = (urgent, 5000) ∷ (patient, 6000) ∷ []

drain-push_all_example :
    Arranges list_heap
      (entries list_heap batch)
      (drain list_heap (length batch) (push_all list_heap (new list_heap) batch))
drain-push_all_example = drain-push_all list_heap batch
