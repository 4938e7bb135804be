-- ===== src/Adapter.antt =====
-- crates/bulkmail/src/adapter/mod.rs: what the sender asks of a chain. Each trait is a record of
-- its operations on the state `W` of the chain's components and of the network behind them.
pub mod Ethereum
pub mod Solana
use Prim.Native.String.{String}
use bulkmail.Prelude.{ℕ, zero, suc, List, [], ◌∷◌, Option, Result}
use bulkmail.Error.{Error}
use bulkmail.Message.{Message}

pub data SendOutcome (TxId : Type 0) : Type 0 where
  confirmed dropped reverted : TxId → SendOutcome TxId

pub data TransactionStatus : Type 0 where
  pending : TransactionStatus
  confirmed_at finalized : ℕ → TransactionStatus
  failed : String → TransactionStatus
  expired : TransactionStatus

pub data RetryDecision (FeeParams ReplayToken : Type 0) : Type 0 where
  resubmit : FeeParams → ReplayToken → RetryDecision FeeParams ReplayToken
  requeue abandon : RetryDecision FeeParams ReplayToken

pub record PendingTransaction (FeeParams ReplayToken TxId : Type 0) : Type 0 where
  pub msg : Message
  pub tx_id : TxId
  pub fee : FeeParams
  pub replay_token : ReplayToken
  pub created_at : ℕ
  pub replacement_count : ℕ

-- The loop of a task that passes block numbers on to a channel until a send fails: `room` is the
-- number of sends until the receiver is dropped. Every adapter has one.
unfoldable pub forward : ℕ → List ℕ → List ℕ
forward room [] = []
forward zero (number ∷ numbers) = []
forward (suc room) (number ∷ numbers) = number ∷ forward room numbers

-- A stream of block numbers is what is still to be received.
pub record ChainClient (W FeeParams ReplayToken TxId : Type 0) : Type 0 where
  pub subscribe_new_blocks : W → Result Error (List ℕ) × W
  pub get_block_number : W → Result Error ℕ × W
  pub send_transaction : Message → FeeParams → ReplayToken → W → Result Error (SendOutcome TxId) × W
  pub get_transaction_status : TxId → W → Result Error TransactionStatus × W

pub record FeeManager (W FeeParams : Type 0) : Type 0 where
  pub get_fee_params : ℕ → W → Result Error FeeParams × W
  pub update_on_confirmation : ℕ → FeeParams → W → W
  pub bump_fee : FeeParams → FeeParams
  pub get_base_fee : W → FeeParams

pub record ReplayProtection (W ReplayToken : Type 0) : Type 0 where
  pub next : W → W × ReplayToken
  pub sync : W → W × Result Error (Unit {0})
  pub release : ReplayToken → W → W

pub record RetryStrategy (W FeeParams ReplayToken TxId : Type 0) : Type 0 where
  pub handle_dropped :
      PendingTransaction FeeParams ReplayToken TxId → W → W × RetryDecision FeeParams ReplayToken
  pub handle_confirmed : PendingTransaction FeeParams ReplayToken TxId → ℕ → W → W

pub record ChainAdapter : Type 1 where
  pub World : Type 0
  pub FeeParams : Type 0
  pub ReplayToken : Type 0
  pub TxId : Type 0
  pub client : ChainClient World FeeParams ReplayToken TxId
  pub fees : FeeManager World FeeParams
  pub replay : ReplayProtection World ReplayToken
  pub retry : RetryStrategy World FeeParams ReplayToken TxId
