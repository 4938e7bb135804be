-- ===== src/Adapter/Ethereum.antt =====
-- crates/bulkmail/src/adapter/ethereum.rs: the Ethereum adapter, over the nonce and gas-price
-- managers and the interface to the chain.
pub mod Blocks
pub mod Logged
pub mod Ladder
pub mod Watched
pub mod Replace
use Prim.Native.String.{String}
use bulkmail.Prelude.{
  ℕ, ◌+◌, ◌*◌, ◌/◌, ◌%◌, ltb, leb, if◌then◌else◌, not, Bool, true, false, List, length, map, Option,
  none, some, Result, ok, err, add_u128, u128_mod,
}
use bulkmail.Error.{Error, ChainError, chain_error, pending_transaction}
use bulkmail.Message.{Message, can_retry}
use bulkmail.NonceManager.{
  NonceState, get_next_available_nonce, mark_nonce_available, update_current_nonce, sync_nonce,
}
use bulkmail.GasPrice.{GasPriceManager, get_gas_price, get_base_fee, update_on_confirmation}
use bulkmail.Clock.{TimeSource}
use bulkmail.Chain.{ChainClient, TxEip1559, TxKind, create, call, Header, Receipt, Watcher}
use bulkmail.Adapter.{
  SendOutcome, TransactionStatus, RetryDecision, PendingTransaction, ChainAdapter, forward,
  confirmed, dropped, reverted, pending, confirmed_at, failed, resubmit, requeue, abandon,
}

abbrev pub max_replacements : ℕ
max_replacements = 3

abbrev pub gas_price_increase_percent : ℕ
gas_price_increase_percent = 20

-- Seconds.
abbrev pub tx_timeout : ℕ
tx_timeout = 3

pub record EthFeeParams : Type 0 where
  pub base_fee : ℕ
  pub priority_fee : ℕ

-- The components of the adapter, with the state of the network behind them.
pub record EthWorld (E : Type 0) : Type 0 where
  pub env : E
  pub nonces : NonceState
  pub gas : GasPriceManager

unfoldable pub bump_by_percent : ℕ → ℕ → ℕ
bump_by_percent n percent = (n + n * percent % u128_mod / 100) % u128_mod

unfoldable pub bump_fee : EthFeeParams → EthFeeParams
unfolding bump_by_percent
bump_fee current = record {
  base_fee = current.base_fee;
  priority_fee = bump_by_percent current.priority_fee gas_price_increase_percent;
}

-- `msg.to.map_or(TxKind::Create, TxKind::Call)`
abbrev pub tx_kind : Option ℕ → TxKind
tx_kind none = create
tx_kind (some to) = call to

-- The transaction that a message, a fee and a nonce make.
unfoldable pub transaction : ℕ → Message → EthFeeParams → ℕ → TxEip1559
transaction chain_id msg fee nonce = record {
  chain_id = chain_id;
  nonce = nonce;
  gas_limit = msg.gas;
  max_fee_per_gas = add_u128 fee.base_fee fee.priority_fee;
  max_priority_fee_per_gas = fee.priority_fee;
  to = tx_kind msg.to;
  value = msg.value;
  input = msg.call_data;
}

-- The outcome by the answer to the query for the receipt.
unfoldable pub receipt_outcome : ℕ → Result ChainError (Option Receipt) → SendOutcome ℕ
receipt_outcome tx_hash (ok (some receipt)) =
    if receipt.status then confirmed tx_hash else reverted tx_hash
receipt_outcome tx_hash (ok none) = dropped tx_hash
receipt_outcome tx_hash (err e) = dropped tx_hash

unfoldable pub status_of : Result ChainError (Option Receipt) → Result Error TransactionStatus
status_of (ok (some receipt)) =
    if receipt.status
    then ok (confirmed_at (elim receipt.block_number [ none ↦ 0 | some number ↦ number ]))
    else ok (failed "reverted")
status_of (ok none) = ok pending
status_of (err e) = err (chain_error e)

abbrev pub or_chain {ℓ} : {A : Type ℓ} → Result ChainError A → Result Error A
or_chain (ok a) = ok a
or_chain (err e) = err (chain_error e)

module _ {E : Type 0} (chain : ChainClient E) where
  -- After the wait: a receipt is asked for only if the wait succeeded.
  unfoldable pub after_wait : ℕ → Result String (Unit {0}) → E → SendOutcome ℕ × E
  unfolding receipt_outcome
  after_wait tx_hash (ok _) e =
      let (r, e') = chain.get_receipt tx_hash e in (receipt_outcome tx_hash r, e')
  after_wait tx_hash (err _) e = (dropped tx_hash, e)

  unfoldable pub after_register :
      Watcher E → Result String (Unit {0}) → E → Result Error (SendOutcome ℕ) × E
  unfolding after_wait
  after_register watcher (ok _) e =
      let (waited, e₁) = watcher.wait e in
      let (outcome, e₂) = after_wait watcher.tx_hash waited e₁ in (ok outcome, e₂)
  after_register watcher (err why) e = (err (pending_transaction why), e)

  unfoldable pub after_broadcast :
      Result ChainError (Watcher E) → E → Result Error (SendOutcome ℕ) × E
  unfolding after_register
  after_broadcast (ok watcher) e =
      let (registered, e') = watcher.register 1 tx_timeout e in after_register watcher registered e'
  after_broadcast (err why) e = (err (chain_error why), e)

  unfoldable pub send_transaction :
      Message → EthFeeParams → ℕ → E → Result Error (SendOutcome ℕ) × E
  unfolding after_broadcast transaction
  send_transaction msg fee nonce e =
      let (sent, e') = chain.send_transaction (transaction chain.id msg fee nonce) e in
      after_broadcast sent e'

  -- `EthClient::subscribe_new_blocks`: the numbers of the headers, through a second task.
  unfoldable pub subscribe_new_blocks : E → Result Error (List ℕ) × E
  unfolding forward
  subscribe_new_blocks e =
      let (r, e') = chain.subscribe_new_blocks e in
      (
        elim r [
          | ok headers ↦ ok (forward (length headers) (map (λ (h : Header). h.number) headers))
          | err why ↦ err (chain_error why)
        ],
        e',
      )

  unfoldable pub get_block_number : E → Result Error ℕ × E
  get_block_number e = let (r, e') = chain.get_block_number e in (or_chain r, e')

  unfoldable pub get_transaction_status : ℕ → E → Result Error TransactionStatus × E
  unfolding status_of
  get_transaction_status tx_hash e = let (r, e') = chain.get_receipt tx_hash e in (status_of r, e')

unfoldable pub get_fee_params : GasPriceManager → ℕ → Result Error EthFeeParams
get_fee_params g priority = elim (get_gas_price g priority) [
  | ok (base_fee, priority_fee) ↦ ok (record { base_fee = base_fee; priority_fee = priority_fee })
  | err e ↦ err e
]

abbrev pub EthPending : Type 0
EthPending = PendingTransaction EthFeeParams ℕ ℕ

-- `EthRetryStrategy::handle_dropped`
unfoldable pub handle_dropped : EthPending → NonceState → NonceState × RetryDecision EthFeeParams ℕ
unfolding bump_fee
handle_dropped p nonces =
    if not (can_retry p.msg)
    then (mark_nonce_available nonces p.replay_token, abandon)
    else if leb max_replacements p.replacement_count
    then (mark_nonce_available nonces p.replay_token, requeue)
    else (nonces, resubmit (bump_fee p.fee) p.replay_token)

-- `EthRetryStrategy::handle_confirmed`
unfoldable pub handle_confirmed : {E : Type 0} → EthPending → ℕ → EthWorld E → EthWorld E
handle_confirmed p confirmation_time w = record w {
  gas = update_on_confirmation w.gas confirmation_time p.fee.priority_fee;
  nonces = update_current_nonce w.nonces p.replay_token;
}

-- `impl ChainAdapter for Eth`, and the traits of its parts. `address` is the account.
abbrev pub eth : {E : Type 0} → ChainClient E → ℕ → ChainAdapter
eth {E} chain address = record {
  World = EthWorld E;
  FeeParams = EthFeeParams;
  ReplayToken = ℕ;
  TxId = ℕ;
  client = record {
    subscribe_new_blocks =
        λ w. let (r, e) = subscribe_new_blocks chain w.env in (r, record w { env = e });
    get_block_number = λ w. let (r, e) = get_block_number chain w.env in (r, record w { env = e });
    send_transaction = λ msg fee nonce w.
        let (r, e) = send_transaction chain msg fee nonce w.env in (r, record w { env = e });
    get_transaction_status = λ tx_hash w.
        let (r, e) = get_transaction_status chain tx_hash w.env in (r, record w { env = e });
  };
  fees = record {
    get_fee_params = λ priority w. (get_fee_params w.gas priority, w);
    update_on_confirmation =
        λ t fee w. record w { gas = update_on_confirmation w.gas t fee.priority_fee };
    bump_fee = bump_fee;
    get_base_fee = λ w. record { base_fee = get_base_fee w.gas; priority_fee = 0 };
  };
  replay = record {
    next = λ w.
        let (nonces, n) = get_next_available_nonce w.nonces in (record w { nonces = nonces }, n);
    sync = λ w.
        let (answer, e) = chain.get_account_nonce address w.env in
        let (nonces, r) = sync_nonce w.nonces answer in (record w { env = e; nonces = nonces }, r);
    release = λ n w. record w { nonces = mark_nonce_available w.nonces n };
  };
  retry = record {
    handle_dropped =
        λ p w. let (nonces, d) = handle_dropped p w.nonces in (record w { nonces = nonces }, d);
    handle_confirmed = handle_confirmed;
  };
}

-- A clock of the environment, under the components.
abbrev pub eth_time : {E : Type 0} → TimeSource E → TimeSource (EthWorld E)
eth_time t = record {
  since_epoch = λ w. let (d, e) = t.since_epoch w.env in (d, record w { env = e });
  monotonic = λ w. let (d, e) = t.monotonic w.env in (d, record w { env = e });
}
