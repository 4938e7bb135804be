-- ===== src/Tests/Tracking.antt =====
-- crates/mempooloracle/src/lib.rs with one tracked transaction and room for no more. The ratios are
-- whole percents here.
use bulkmail.Prelude.{
  some, inr, refl, ℕ, ◌+◌, ◌-◌, ◌*◌, ◌/◌, ◌≤◌, ◌≡◌, ◌↔◌, [], ◌∷◌, true, length, arith,
}
use bulkmail.Mempool.Index.{contains, insert as insert_key}
use bulkmail.Mempool.Queues.{PendingTx, lookup, put, slot_at}
use bulkmail.Mempool.{MempoolInner, BlockUpdate, TrackerConfig}
use bulkmail.Mempool.Insert.{insert, priority_key, make_room, place, fill_slot, queue_of}
use bulkmail.Mempool.Insert.Evicted.{MakesRoom}
use bulkmail.Mempool.Block.{
  FloatOps, apply_block, known_gas_used, flow_update, remove_all, advance, rank_accounts,
  rank_slots,
}
use bulkmail.Mempool.Block.Ranked.{RanksIn, apply_block-RanksIn}
use bulkmail.Mempool.Tracker.{from_channel, insert_all, run}
use bulkmail.Mempool.Tracker.Evicted.{run-MakesRoom}
use bulkmail.Mempool.Insert.Stored.{Fits, insert-find_tx_by_addr_and_nonce}
use bulkmail.Mempool.Query.{find_tx_by_addr_and_nonce, classify_transaction, marketable}
use bulkmail.Mempool.Insert.{eligibility_key}
use bulkmail.Mempool.Tracker.Indexed.{run-base_fee_eligibility}
use bulkmail.Mempool.Tracker.Classified.{apply_block-classify_transaction}

abbrev pub percents : FloatOps ℕ
percents = record {
  of_u64 = λ n. n * 100;
  one = 100;
  tenth = 10;
  add = λ a b. a + b;
  sub = λ a b. a - b;
  mul = λ a b. a * b / 100;
  div = λ a b. a * 100 / b;
  to_u64 = λ a. a / 100;
}

abbrev pub small : TrackerConfig ℕ
small = record {
  initial_base_fee = 10;
  global_capacity = 1;
  per_account_capacity = 4;
  private_flow_prior = 20;
}

abbrev pub cheap : PendingTx
cheap = record {
  id = 1;
  sender = 7;
  nonce = 3;
  max_fee_per_gas = 30;
  max_priority_fee_per_gas = 2;
  gas_limit = 21000;
}

abbrev generous : PendingTx
generous = record cheap { id = 2; sender = 8; max_priority_fee_per_gas = 9 }

abbrev pub full : MempoolInner ℕ
full = run percents [] (from_channel (cheap ∷ []) small)

full_capacity : full.config.global_capacity ≤ length full.base_fee_eligibility
unfolding run from_channel insert_all insert make_room queue_of place fill_slot lookup insert_key
full_capacity = omega arith

run-MakesRoom_example : MakesRoom generous full full.priority_queue
run-MakesRoom_example =
    run-MakesRoom percents (cheap ∷ []) small [] generous (omega arith) tt full_capacity

abbrev block : BlockUpdate
block = record { included_txs = []; new_base_fee = 12; gas_used = 21000; gas_limit = 30_000_000 }

apply_block-RanksIn_example :
    let m' = apply_block percents block full in
    (contains (priority_key 12 cheap) m'.priority_queue ≡ true)
    ↔ RanksIn m'.current_base_fee m'.account_queues (priority_key 12 cheap)
apply_block-RanksIn_example = apply_block-RanksIn percents block full (priority_key 12 cheap)

found_cheap : find_tx_by_addr_and_nonce full 7 3 ≡ some cheap
unfolding find_tx_by_addr_and_nonce run from_channel insert_all insert make_room queue_of place
    fill_slot lookup put slot_at
found_cheap = refl

abbrev roomy : MempoolInner ℕ
roomy = record (from_channel [] small) {
  account_queues = (7, record { confirmed_nonce = 5; slots = [] }) ∷ [];
  base_fee_eligibility = [];
  config = small;
}

roomy-Fits : Fits cheap (queue_of cheap roomy) roomy
unfolding queue_of lookup
roomy-Fits = inr (omega arith, omega arith)

insert-find_tx_by_addr_and_nonce_example :
    find_tx_by_addr_and_nonce (insert cheap roomy) 7 3 ≡ some cheap
insert-find_tx_by_addr_and_nonce_example =
    insert-find_tx_by_addr_and_nonce cheap roomy (omega arith) roomy-Fits

found_after : find_tx_by_addr_and_nonce (apply_block percents block full) 7 3 ≡ some cheap
unfolding apply_block known_gas_used flow_update remove_all advance rank_accounts rank_slots
    find_tx_by_addr_and_nonce run from_channel insert_all insert make_room queue_of place fill_slot
    lookup put slot_at
found_after = refl

apply_block-classify_transaction_example :
    let m = apply_block percents block full in
    (classify_transaction m cheap ≡ marketable)
    ↔ (contains (priority_key m.current_base_fee cheap) m.priority_queue ≡ true)
apply_block-classify_transaction_example =
    apply_block-classify_transaction percents (cheap ∷ []) small [] block cheap (omega arith)
      found_after

run-base_fee_eligibility_example : contains (eligibility_key cheap) full.base_fee_eligibility ≡ true
run-base_fee_eligibility_example =
    run-base_fee_eligibility percents (cheap ∷ []) small [] 7 3 cheap (omega arith, tt) tt
      found_cheap
