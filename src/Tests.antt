-- ===== src/Tests.antt =====
-- Concrete inputs: a message, a network that confirms everything at once, a clock that stands still,
-- and the components over them. The child modules apply the theorems to these.
mod Drawing
pub mod Messages
pub mod Nonces
pub mod Prices
pub mod Queue
pub mod Sending
pub mod Services
pub mod Tracking
pub mod Transports
mod Unit
mod Waiting
pub mod Tool
use bulkmail.Prelude.{ℕ, List, [], ◌∷◌, Option, none, some, true, Result, ok}
use bulkmail.Message.{Message}
use bulkmail.NonceManager.{NonceState}
use bulkmail.GasPrice.{GasPriceManager}
use bulkmail.Clock.{TimeSource}
use bulkmail.Chain.{ChainClient, Watcher}
use bulkmail.Adapter.Ethereum.{EthWorld, EthFeeParams}

-- Created at 1 s, with a deadline at 31 s.
abbrev pub urgent : Message
urgent = record {
  to = some 7;
  value = 5;
  call_data = [];
  gas = 21000;
  priority = 80;
  deadline_ms = some 30000;
  created_at_ms = 1000;
  retry_count = 0;
}

-- The same without a deadline.
abbrev pub patient : Message
patient = record urgent { priority = 20; deadline_ms = none }

abbrev pub two_in_flight : NonceState
two_in_flight = record { current = 5; in_flight = 5 ∷ 7 ∷ [] }

abbrev pub busy : GasPriceManager
busy = record { confirmation_times = 70_000_000_000 ∷ []; priority_fee = 2_000_000_000 }

abbrev pub tip : EthFeeParams
tip = record { base_fee = 2_000_000_000; priority_fee = 1_000_000_000 }

abbrev pub watcher : Watcher ℕ
watcher = record {
  tx_hash = 99;
  register = λ confirmations timeout e. (ok tt, e);
  wait = λ e. (ok tt, e);
}

-- The state of the network is the number of transactions that it has seen.
abbrev pub network : ChainClient ℕ
network = record {
  id = 1;
  subscribe_new_blocks = λ e. (ok [], e);
  get_block_number = λ e. (ok e, e);
  get_account_nonce = λ a e. (ok e, e);
  get_receipt = λ h e. (ok (some (record { status = true; block_number = some 3 })), e);
  send_transaction = λ tx e. (ok watcher, ℕ.suc e);
}

abbrev pub still : TimeSource ℕ
still = record { since_epoch = λ e. (some 5_000_000_000, e); monotonic = λ e. (0, e) }
