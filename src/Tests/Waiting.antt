-- ===== src/Tests/Waiting.antt =====
-- crates/mempooloracle/src/lib.rs with two tracked transactions of two accounts. The ratios are whole
-- percents here.
use bulkmail.Prelude.{refl, ℕ, ◌<◌, ◌≤◌, ◌≡◌, [], ◌∷◌, true, length, arith, some, u64_mod}
use bulkmail.Mempool.Index.{contains, insert as insert_key}
use bulkmail.Mempool.Index.Sorted.{Comes}
use bulkmail.Mempool.Queues.{PendingTx, AccountQueue, lookup, put, slot_at}
use bulkmail.Mempool.{MempoolInner, TrackerConfig, effective_priority_fee}
use bulkmail.Mempool.Insert.{insert, priority_key, make_room, place, fill_slot, queue_of}
use bulkmail.Mempool.Tracker.{from_channel, insert_all, run}
use bulkmail.Mempool.Tracker.Awaited.{run-find_tx_by_id, run-estimated_blocks_to_confirm}
use bulkmail.Mempool.Tracker.Bounded.{run-per_account_capacity}
use bulkmail.Mempool.Query.{
  find_tx_by_addr_and_nonce, find_tx_by_id, find_in_slots, classify_transaction, is_blocked,
  class_of, marketable, estimated_blocks_to_confirm,
}
use bulkmail.Mempool.Query.Ahead.{total, gas_of}
use bulkmail.Tests.Tracking.{percents, small, cheap}

abbrev large : TrackerConfig ℕ
large = record small { global_capacity = 8 }

abbrev dear : PendingTx
dear = record cheap { id = 2; sender = 8; max_priority_fee_per_gas = 9 }

abbrev two : MempoolInner ℕ
two = run percents [] (from_channel (cheap ∷ dear ∷ []) large)

found_dear : find_tx_by_id 2 two.account_queues ≡ some dear
unfolding find_tx_by_id find_in_slots run from_channel insert_all insert make_room queue_of place
    fill_slot lookup put insert_key effective_priority_fee
found_dear = refl

found_cheap : find_tx_by_id 1 two.account_queues ≡ some cheap
unfolding find_tx_by_id find_in_slots run from_channel insert_all insert make_room queue_of place
    fill_slot lookup put insert_key effective_priority_fee
found_cheap = refl

class_dear : classify_transaction two dear ≡ marketable
unfolding classify_transaction is_blocked class_of run from_channel insert_all insert make_room
    queue_of place fill_slot lookup put insert_key effective_priority_fee
class_dear = refl

class_cheap : classify_transaction two cheap ≡ marketable
unfolding classify_transaction is_blocked class_of run from_channel insert_all insert make_room
    queue_of place fill_slot lookup put insert_key effective_priority_fee
class_cheap = refl

ranked_dear : contains (priority_key two.current_base_fee dear) two.priority_queue ≡ true
unfolding contains run from_channel insert_all insert make_room queue_of place fill_slot lookup put
    insert_key effective_priority_fee
ranked_dear = refl

dear_first :
    Comes (priority_key two.current_base_fee dear) (priority_key two.current_base_fee cheap)
unfolding run from_channel insert_all insert make_room queue_of place fill_slot lookup put
    insert_key effective_priority_fee
dear_first = refl

queue_small : total two two.priority_queue < u64_mod
unfolding total gas_of find_tx_by_addr_and_nonce run from_channel insert_all insert make_room
    queue_of place fill_slot lookup put slot_at insert_key effective_priority_fee
queue_small = omega arith

run-find_tx_by_id_example : (find_tx_by_addr_and_nonce two 8 3 ≡ some dear) × (dear.id ≡ 2)
run-find_tx_by_id_example =
    run-find_tx_by_id percents (cheap ∷ dear ∷ []) large [] 2 dear found_dear

run-estimated_blocks_to_confirm_example :
    (b : ℕ) × (c : ℕ) × (estimated_blocks_to_confirm percents two 2 ≡ some b)
    × (estimated_blocks_to_confirm percents two 1 ≡ some c)
    × (b ≤ c)
run-estimated_blocks_to_confirm_example =
    run-estimated_blocks_to_confirm percents (cheap ∷ dear ∷ []) large [] 2 1 dear cheap queue_small
      found_dear found_cheap class_dear class_cheap ranked_dear dear_first

abbrev queue_dear : AccountQueue
queue_dear = record { confirmed_nonce = 3; slots = some dear ∷ [] }

queued_dear : lookup 8 two.account_queues ≡ some queue_dear
unfolding run from_channel insert_all insert make_room queue_of place fill_slot lookup put
    insert_key effective_priority_fee
queued_dear = refl

run-per_account_capacity_example : length queue_dear.slots ≤ 4
run-per_account_capacity_example =
    run-per_account_capacity percents (cheap ∷ dear ∷ []) large [] 8 queue_dear queued_dear
