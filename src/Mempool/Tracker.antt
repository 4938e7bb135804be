-- ===== src/Mempool/Tracker.antt =====
-- crates/mempooloracle/src/lib.rs: `MempoolTracker`, whose loop applies the events of its channel
-- one at a time, as a fold over the events that it receives.
pub mod Awaited
pub mod Bounded
pub mod Classified
pub mod Evicted
pub mod Found
pub mod Indexed
pub mod Ordered
use bulkmail.Prelude.{List, [], ◌∷◌}
use bulkmail.Mempool.Queues.{PendingTx}
use bulkmail.Mempool.{BlockUpdate, TrackerConfig, MempoolInner}
use bulkmail.Mempool.Insert.{insert}
use bulkmail.Mempool.Block.{FloatOps, apply_block}

pub data MempoolEvent : Type 0 where
  pending_transaction : PendingTx → MempoolEvent
  new_block : BlockUpdate → MempoolEvent

module _ {F : Type 0} where
  unfoldable pub insert_all : List PendingTx → MempoolInner F → MempoolInner F
  insert_all [] m = m
  insert_all (tx ∷ txs) m = insert_all txs (insert tx m)

  abbrev pub empty_inner : TrackerConfig F → MempoolInner F
  empty_inner config = record {
    account_queues = [];
    base_fee_eligibility = [];
    priority_queue = [];
    config = config;
    current_base_fee = config.initial_base_fee;
    private_flow_ratio = config.private_flow_prior;
    last_block_gas_limit = 30000000;
  }

  unfoldable pub from_channel : List PendingTx → TrackerConfig F → MempoolInner F
  unfolding insert_all
  from_channel initial_txs config = insert_all initial_txs (empty_inner config)

module _ {F : Type 0} (ops : FloatOps F) where
  unfoldable pub handle_event : MempoolEvent → MempoolInner F → MempoolInner F
  handle_event (pending_transaction tx) m = insert tx m
  handle_event (new_block block) m = apply_block ops block m

  unfoldable pub run : List MempoolEvent → MempoolInner F → MempoolInner F
  unfolding handle_event
  run [] m = m
  run (e ∷ events) m = run events (handle_event e m)
