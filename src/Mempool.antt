-- ===== src/Mempool.antt =====
-- crates/mempooloracle/src/lib.rs: the state of the mempool tracker. Identifiers and addresses are
-- numbers: the code compares them only. `F` is the type of `f64`.
pub mod Index
pub mod Queues
pub mod Insert
pub mod Block
pub mod Query
pub mod Tracker
use Index.{Keys}
use Queues.{Accounts, PendingTx}
use bulkmail.Prelude.{ℕ, ◌-◌, min, List}

pub record BlockUpdate : Type 0 where
  pub included_txs : List PendingTx
  pub new_base_fee : ℕ
  pub gas_used : ℕ
  pub gas_limit : ℕ

pub record TrackerConfig (F : Type 0) : Type 0 where
  pub initial_base_fee : ℕ
  pub global_capacity : ℕ
  pub per_account_capacity : ℕ
  pub private_flow_prior : F

pub record MempoolInner (F : Type 0) : Type 0 where
  pub account_queues : Accounts
  pub base_fee_eligibility : Keys
  pub priority_queue : Keys
  pub config : TrackerConfig F
  pub current_base_fee : ℕ
  pub private_flow_ratio : F
  pub last_block_gas_limit : ℕ

-- `effective_priority_fee` at a base fee; the subtraction saturates.
unfoldable pub effective_priority_fee : ℕ → PendingTx → ℕ
effective_priority_fee base_fee tx = min tx.max_priority_fee_per_gas (tx.max_fee_per_gas - base_fee)
