-- ===== src/Error.antt =====
-- The error types of crates/bulkmail/src/lib.rs (`Error`) and crates/bulkmail/src/chain.rs
-- (`chain::Error`). What third-party errors carry is kept only where the code reads it: the code of
-- a JSON-RPC error response.
use Prim.Native.String.{String}
use bulkmail.Prelude.{ℕ}

-- `negsuc n` is -(n + 1).
pub data ℤ : Type 0 where
  pos : ℕ → ℤ
  negsuc : ℕ → ℤ

-- The client library's `RpcError`: an error response with its code, or any other failure.
pub data RpcError : Type 0 where
  error_resp : ℤ → RpcError
  other_rpc : String → RpcError

-- `chain::Error`
pub data ChainError : Type 0 where
  rpc : RpcError → ChainError
  subscription : String → ChainError
  signing : String → ChainError

pub data Error : Type 0 where
  rpc_error : RpcError → Error
  signing_error : String → Error
  pending_transaction : String → Error
  too_many_dependencies : ℕ → Error
  gas_price_error : String → Error
  message_expired : Error
  retries_exceeded : Error
  fee_increases_exceeded : Error
  gas_price_too_low : Error
  simulation_failed : Error
  chain_error : ChainError → Error
  transaction_dropped : ℕ → Error
  transaction_reverted : ℕ → Error
  subscription_closed : Error
  solana_error : String → Error
