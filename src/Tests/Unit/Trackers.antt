-- ===== src/Tests/Unit/Trackers.antt =====
-- The tests of crates/mempooloracle/tests/mempool_oracle.rs that need no network, after all events are
-- handled. Identifiers and addresses are the bytes that they repeat.
use bulkmail.Prelude.{
  ℕ, ◌≡◌, refl, ◌&&◌, not, Bool, true, false, List, length, [], ◌∷◌, map, Option, none, some,
}
use bulkmail.Mempool.Index.{insert as insert_key, remove}
use bulkmail.Mempool.Queues.{PendingTx, lookup, put, slot_at}
use bulkmail.Mempool.{MempoolInner, TrackerConfig, effective_priority_fee}
use bulkmail.Mempool.Insert.{
  insert, make_room, evict_first, evict, clear_slot, queue_of, place, fill_slot,
}
use bulkmail.Mempool.Query.{
  TxClassification, marketable, base_fee_invalid, unmarketable, nonce_bound, classification,
  find_tx_by_addr_and_nonce,
}
use bulkmail.Mempool.Tracker.{pending_transaction, from_channel, insert_all, handle_event, run}
use bulkmail.Tests.Tracking.{percents}

abbrev default_config : TrackerConfig ℕ
default_config = record {
  initial_base_fee = 10;
  global_capacity = 100;
  per_account_capacity = 10;
  private_flow_prior = 0;
}

abbrev pending : ℕ → ℕ → ℕ → ℕ → ℕ → PendingTx
pending id sender nonce max_fee_per_gas max_priority_fee_per_gas = record {
  id = id;
  sender = sender;
  nonce = nonce;
  max_fee_per_gas = max_fee_per_gas;
  max_priority_fee_per_gas = max_priority_fee_per_gas;
  gas_limit = 21000;
}

-- The tracker of some initial transactions, when it has handled those sent.
abbrev new_tracker : List PendingTx → TrackerConfig ℕ → List PendingTx → MempoolInner ℕ
new_tracker initial_txs config sent =
    run percents (map pending_transaction sent) (from_channel initial_txs config)

abbrev same_class : TxClassification → TxClassification → Bool
same_class marketable marketable = true
same_class base_fee_invalid base_fee_invalid = true
same_class unmarketable unmarketable = true
same_class nonce_bound nonce_bound = true
same_class _ _ = false

abbrev classified : Option TxClassification → TxClassification → Bool
classified none expected = false
classified (some c) expected = same_class c expected

abbrev known : Option TxClassification → Bool
known none = false
known (some c) = true

abbrev found : Option PendingTx → Bool
found none = false
found (some tx) = true

abbrev test_classification_marketable : Bool
test_classification_marketable =
    let tx = pending 1 1 0 20 10 in
    classified (classification (new_tracker (tx ∷ []) default_config []) tx.id) marketable

test_classification_marketable_passes : test_classification_marketable ≡ true
unfolding run from_channel insert lookup put effective_priority_fee classification
test_classification_marketable_passes = refl

abbrev test_classification_base_fee_invalid : Bool
test_classification_base_fee_invalid =
    let tx = pending 1 1 0 5 10 in
    classified (classification (new_tracker (tx ∷ []) default_config []) tx.id) base_fee_invalid

test_classification_base_fee_invalid_passes : test_classification_base_fee_invalid ≡ true
unfolding run from_channel insert lookup put classification
test_classification_base_fee_invalid_passes = refl

abbrev test_classification_unmarketable : Bool
test_classification_unmarketable =
    let tx = pending 1 1 0 10 0 in
    classified (classification (new_tracker (tx ∷ []) default_config []) tx.id) unmarketable

test_classification_unmarketable_passes : test_classification_unmarketable ≡ true
unfolding run from_channel insert lookup put effective_priority_fee classification
test_classification_unmarketable_passes = refl

abbrev test_classification_nonce_bound_gap : Bool
test_classification_nonce_bound_gap =
    let tx1 = pending 1 1 0 20 10 in
    let tx2 = pending 2 1 2 20 10 in
    let handle = new_tracker [] default_config (tx1 ∷ tx2 ∷ []) in
    classified (classification handle tx2.id) nonce_bound

test_classification_nonce_bound_gap_passes : test_classification_nonce_bound_gap ≡ true
unfolding run from_channel insert lookup put insert_key effective_priority_fee classification
test_classification_nonce_bound_gap_passes = refl

abbrev test_classification_nonce_bound_unmarketable : Bool
test_classification_nonce_bound_unmarketable =
    let tx1 = pending 1 1 0 10 0 in
    let tx2 = pending 2 1 1 20 10 in
    let handle = new_tracker [] default_config (tx1 ∷ tx2 ∷ []) in
    classified (classification handle tx2.id) nonce_bound

test_classification_nonce_bound_unmarketable_passes :
    test_classification_nonce_bound_unmarketable ≡ true
unfolding run from_channel insert lookup put insert_key effective_priority_fee classification
test_classification_nonce_bound_unmarketable_passes = refl

abbrev test_global_eviction : Bool
test_global_eviction =
    let config : TrackerConfig ℕ = record default_config { global_capacity = 1 } in
    let tx1 = pending 1 1 0 20 1 in
    let tx2 = pending 2 2 0 20 0 in
    let tx3 = pending 3 3 0 20 2 in
    let after1 = new_tracker [] config (tx1 ∷ []) in
    let after2 = new_tracker [] config (tx1 ∷ tx2 ∷ []) in
    let after3 = new_tracker [] config (tx1 ∷ tx2 ∷ tx3 ∷ []) in
    known (classification after1 tx1.id)
    && known (classification after2 tx1.id)
    && not (known (classification after2 tx2.id))
    && not (known (classification after3 tx1.id))
    && known (classification after3 tx3.id)

test_global_eviction_passes : test_global_eviction ≡ true
unfolding run from_channel insert lookup put slot_at insert_key effective_priority_fee
    classification
test_global_eviction_passes = refl

abbrev test_out_of_order_nonce_insert_from_backfill : Bool
test_out_of_order_nonce_insert_from_backfill =
    let tx_high = pending 5 7 5 20 10 in
    let tx_low = pending 4 7 4 20 10 in
    let handle = new_tracker [] default_config (tx_high ∷ tx_low ∷ []) in
    classified (classification handle tx_low.id) marketable
    && classified (classification handle tx_high.id) marketable
    && found (find_tx_by_addr_and_nonce handle 7 4)
    && found (find_tx_by_addr_and_nonce handle 7 5)

test_out_of_order_nonce_insert_from_backfill_passes :
    test_out_of_order_nonce_insert_from_backfill ≡ true
unfolding run from_channel insert lookup put slot_at insert_key effective_priority_fee
    classification find_tx_by_addr_and_nonce
test_out_of_order_nonce_insert_from_backfill_passes = refl

-- More than the global capacity: a replaced transaction leaves its key in both indexes, one that is
-- refused for its account evicts another one, and an eviction by a key without a transaction makes
-- no room.
abbrev overfull : MempoolInner ℕ
overfull =
    new_tracker [] (record default_config { global_capacity = 2 })
      (pending 1 1 0 20 5
        ∷ pending 2 1 0 21 2
        ∷ pending 3 1 19 20 6
        ∷ pending 4 2 0 20 1
        ∷ pending 5 3 0 20 3
        ∷ [])

three_keys : length overfull.base_fee_eligibility ≡ 3
unfolding run from_channel handle_event insert_all insert make_room evict_first evict clear_slot
    queue_of place fill_slot lookup put slot_at insert_key remove effective_priority_fee
three_keys = refl

-- An eviction of the transaction with the lowest fee: it has replaced one with the highest, whose key is
-- the first one still.
abbrev crowded : MempoolInner ℕ
crowded =
    new_tracker [] (record default_config { global_capacity = 2 })
      (pending 1 1 0 20 9 ∷ pending 2 1 0 20 1 ∷ pending 3 2 0 20 5 ∷ pending 4 3 0 20 10 ∷ [])

lowest_evicted : find_tx_by_addr_and_nonce crowded 1 0 ≡ none
unfolding run from_channel handle_event insert_all insert make_room evict_first evict clear_slot
    queue_of place fill_slot lookup put slot_at insert_key remove effective_priority_fee
    find_tx_by_addr_and_nonce
lowest_evicted = refl
