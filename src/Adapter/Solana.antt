-- ===== src/Adapter/Solana.antt =====
-- crates/bulkmail/src/adapter/solana.rs: what is implemented of the Solana adapter, the blockhash that
-- protects against replay, the slots, the status of a transaction and the bump of a fee; and what is
-- not, whose calls panic. The RPC and subscription clients are parameters; hashes and signatures are
-- numbers.
pub mod Refresh
use Prim.Native.String.{String}
use bulkmail.Prelude.{
  ℕ, List, length, ltb, leb, if◌then◌else◌, Bool, true, false, Option, none, some, Result, ok, err,
  add_u64, saturating_add_u64,
}
use bulkmail.Error.{Error, solana_error}
use bulkmail.Adapter.{
  TransactionStatus, pending, confirmed_at, finalized, failed, ChainClient, SendOutcome,
  PendingTransaction, RetryDecision, forward,
}
use bulkmail.Message.{Message}

pub record SolFeeParams : Type 0 where
  pub compute_unit_price : ℕ
  pub compute_unit_limit : ℕ

pub data ConfirmationStatus : Type 0 where
  processed : ConfirmationStatus
  confirmed_status : ConfirmationStatus
  finalized_status : ConfirmationStatus

-- What the code reads of a signature's status; an error as it is printed.
pub record SignatureStatus : Type 0 where
  pub slot : ℕ
  pub error : Option String
  pub confirmation_status : ConfirmationStatus

-- The client, over the state `E` of the network. An error is its whole message.
pub record RpcClient (E : Type 0) : Type 0 where
  pub get_slot : E → Result String ℕ × E
  pub get_block_height : E → Result String ℕ × E
  pub get_signature_status : ℕ → E → Result String (Option SignatureStatus) × E
  pub get_latest_blockhash : E → Result String (ℕ × ℕ) × E

-- A subscription is the slots that its receiver iterates over.
pub record PubsubClient (E : Type 0) : Type 0 where
  pub slot_subscribe : String → E → Result String (List ℕ) × E

pub record SolClient (E : Type 0) : Type 0 where
  pub rpc : RpcClient E
  pub pubsub_url : String

-- `SolClient::new`
unfoldable pub new_client : {E : Type 0} → RpcClient E → String → SolClient E
new_client rpc pubsub_url = record { rpc = rpc; pubsub_url = pubsub_url }

pub record BlockhashState : Type 0 where
  pub hash : ℕ
  pub last_valid_block_height : ℕ

abbrev pub blockhash_refresh_margin : ℕ
blockhash_refresh_margin = 30

abbrev pub or_solana {ℓ} : {A : Type ℓ} → Result String A → Result Error A
or_solana (ok a) = ok a
or_solana (err why) = err (solana_error why)

unfoldable pub bump_fee : SolFeeParams → SolFeeParams
bump_fee current = record current {
  compute_unit_price = saturating_add_u64 current.compute_unit_price 1;
}

unfoldable pub status_at : ConfirmationStatus → ℕ → TransactionStatus
status_at finalized_status slot = finalized slot
status_at confirmed_status slot = confirmed_at slot
status_at processed slot = confirmed_at slot

unfoldable pub status_of : Result String (Option SignatureStatus) → Result Error TransactionStatus
unfolding status_at
status_of (err why) = err (solana_error why)
status_of (ok none) = ok pending
status_of (ok (some status)) = elim status.error [
  | some reason ↦ ok (failed reason)
  | none ↦ ok (status_at status.confirmation_status status.slot)
]

-- The cached blockhash of an answer.
abbrev pub fresh : ℕ × ℕ → BlockhashState
fresh latest = record { hash = latest.0; last_valid_block_height = latest.1 }

-- The state once the latest blockhash is asked for: an error leaves it.
unfoldable pub refreshed :
    BlockhashState → Result String (ℕ × ℕ) → BlockhashState × Result Error (Unit {0})
refreshed s (ok latest) = (fresh latest, ok tt)
refreshed s (err why) = (s, err (solana_error why))

-- What a call of a placeholder does: it panics, with a text of what is to do.
pub data Panic (A : Type 0) : Type 0 where
  todo : String → Panic A

unfoldable pub get_fee_params : ℕ → Panic (Result Error SolFeeParams)
get_fee_params priority = todo "Use getRecentPrioritizationFees to derive CU price/limit"

unfoldable pub update_on_confirmation : ℕ → SolFeeParams → Panic (Unit {0})
update_on_confirmation confirmation_time fee_paid =
    todo "Update internal fee model from confirmation latency"

unfoldable pub get_base_fee : Panic SolFeeParams
get_base_fee = todo "Return baseline fee params"

unfoldable pub handle_dropped :
    PendingTransaction SolFeeParams ℕ ℕ → Panic (RetryDecision SolFeeParams ℕ)
handle_dropped p = todo "Resubmit with fresh blockhash + bumped CU price"

unfoldable pub handle_confirmed : PendingTransaction SolFeeParams ℕ ℕ → ℕ → Panic (Unit {0})
handle_confirmed p confirmation_time = todo "Update fee model / replay protection state"

module _ {E : Type 0} (pubsub : PubsubClient E) where
  unfoldable pub subscribe_new_blocks : SolClient E → E → Result Error (List ℕ) × E
  unfolding forward
  subscribe_new_blocks client e =
      let (subscribed, e') = pubsub.slot_subscribe client.pubsub_url e in
      (
        elim subscribed [
          | ok slots ↦ ok (forward (length slots) slots)
          | err why ↦ err (solana_error why)
        ],
        e',
      )

module _ {E : Type 0} (rpc : RpcClient E) where
  unfoldable pub get_block_number : E → Result Error ℕ × E
  get_block_number e = let (r, e') = rpc.get_slot e in (or_solana r, e')

  -- It is not implemented in the source, and says so.
  unfoldable pub send_transaction :
      Message → SolFeeParams → ℕ → E → Result Error (SendOutcome ℕ) × E
  send_transaction msg fee replay_token e =
      (err (solana_error "send_transaction not implemented for Solana yet"), e)

  unfoldable pub get_transaction_status : ℕ → E → Result Error TransactionStatus × E
  unfolding status_of
  get_transaction_status id e = let (r, e') = rpc.get_signature_status id e in (status_of r, e')

  -- `SolReplayProtection::new`
  unfoldable pub new : E → Result Error BlockhashState × E
  new e =
      let (r, e') = rpc.get_latest_blockhash e in
      (elim r [ ok latest ↦ ok (fresh latest) | err why ↦ err (solana_error why) ], e')

  unfoldable pub next : BlockhashState → ℕ
  next s = s.hash

  -- The second half of `sync`, by the answer for the height of the chain.
  unfoldable pub sync_at :
      BlockhashState → Result String ℕ → E → (BlockhashState × Result Error (Unit {0})) × E
  unfolding refreshed
  sync_at s (err why) e = ((s, err (solana_error why)), e)
  sync_at s (ok current_height) e =
      let (latest, e') = rpc.get_latest_blockhash e in
      if leb s.last_valid_block_height (add_u64 current_height blockhash_refresh_margin)
      then (refreshed s latest, e')
      else ((s, ok tt), e)

  unfoldable pub sync : BlockhashState → E → (BlockhashState × Result Error (Unit {0})) × E
  unfolding sync_at
  sync s e = let (height, e') = rpc.get_block_height e in sync_at s height e'

-- `impl ChainClient<Sol> for SolClient`, whose replay token is the blockhash.
unfoldable pub sol_client :
    {E : Type 0} → PubsubClient E → SolClient E → ChainClient E SolFeeParams ℕ ℕ
unfolding subscribe_new_blocks get_block_number send_transaction get_transaction_status
sol_client pubsub client = record {
  subscribe_new_blocks = subscribe_new_blocks pubsub client;
  get_block_number = get_block_number client.rpc;
  send_transaction = send_transaction client.rpc;
  get_transaction_status = get_transaction_status client.rpc;
}
