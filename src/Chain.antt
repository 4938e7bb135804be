-- ===== src/Chain.antt =====
-- crates/bulkmail/src/chain.rs: the interface to the chain, and its implementation over the
-- provider and the wallet of the client library, which are parameters.
pub mod Blocks
use Prim.Native.String.{String}
use bulkmail.Prelude.{ℕ, zero, suc, List, [], ◌∷◌, length, Bool, Option, Result, ok, err}
use bulkmail.Error.{ChainError, RpcError, rpc, signing}

-- `TxKind`: a call has a recipient.
pub data TxKind : Type 0 where
  create : TxKind
  call : ℕ → TxKind

-- An EIP-1559 transaction, without its access list, which is always empty here.
pub record TxEip1559 : Type 0 where
  pub chain_id : ℕ
  pub nonce : ℕ
  pub gas_limit : ℕ
  pub max_fee_per_gas : ℕ
  pub max_priority_fee_per_gas : ℕ
  pub to : TxKind
  pub value : ℕ
  pub input : List ℕ

-- What the code reads of a block header and of a receipt.
pub record Header : Type 0 where
  pub number : ℕ

pub record Receipt : Type 0 where
  pub status : Bool
  pub block_number : Option ℕ

-- The watcher of a sent transaction: its hash, the registration (by confirmations required and
-- timeout in seconds), and the wait for what was registered.
pub record Watcher (E : Type 0) : Type 0 where
  pub tx_hash : ℕ
  pub register : ℕ → ℕ → E → Result String (Unit {0}) × E
  pub wait : E → Result String (Unit {0}) × E

-- `trait ChainClient`, over the state `E` of the network and its connection.
pub record ChainClient (E : Type 0) : Type 0 where
  pub id : ℕ
  pub subscribe_new_blocks : E → Result ChainError (List Header) × E
  pub get_block_number : E → Result ChainError ℕ × E
  pub get_account_nonce : ℕ → E → Result ChainError ℕ × E
  pub get_receipt : ℕ → E → Result ChainError (Option Receipt) × E
  pub send_transaction : TxEip1559 → E → Result ChainError (Watcher E) × E

-- The provider and the wallet of the client library; `Envelope` is a signed transaction. A
-- subscription is what its `recv` answers, in order.
pub record Provider (E Envelope : Type 0) : Type 0 where
  pub subscribe_blocks : E → Result RpcError (List (Result String Header)) × E
  pub block_number : E → Result RpcError ℕ × E
  pub transaction_count : ℕ → E → Result RpcError ℕ × E
  pub transaction_receipt : ℕ → E → Result RpcError (Option Receipt) × E
  pub send_tx_envelope : Envelope → E → Result RpcError (Watcher E) × E

pub record Wallet (E Envelope : Type 0) : Type 0 where
  pub sign_transaction : TxEip1559 → E → Result String Envelope × E

-- What the library makes of a URL and of a signing key: a connected provider, and a wallet.
pub record Library (E Envelope : Type 0) : Type 0 where
  pub connect_ws : String → E → Result RpcError (Provider E Envelope) × E
  pub wallet_of : ℕ → Wallet E Envelope

-- The conversions that `?` makes.
abbrev pub or_rpc {ℓ} : {A : Type ℓ} → Result RpcError A → Result ChainError A
or_rpc (ok a) = ok a
or_rpc (err e) = err (rpc e)

-- `struct Chain`
pub record Chain (E Envelope : Type 0) : Type 0 where
  pub chain_id : ℕ
  pub wallet : Wallet E Envelope
  pub provider : Provider E Envelope

-- The task that passes the headers on, until a `recv` fails or a send does: `room` is the number of
-- sends until the receiver is dropped.
unfoldable pub forward : ℕ → List (Result String Header) → List Header
forward room [] = []
forward room (err why ∷ answers) = []
forward zero (ok header ∷ answers) = []
forward (suc room) (ok header ∷ answers) = header ∷ forward room answers

module _ {E Envelope : Type 0} (library : Library E Envelope) where
  -- `Chain::new`
  unfoldable pub new : String → ℕ → ℕ → E → Result ChainError (Chain E Envelope) × E
  new url signing_key chain_id e =
      let (connected, e') = library.connect_ws url e in
      (
        elim connected [
          | err why ↦ err (rpc why)
          | ok provider ↦ ok (record {
            chain_id = chain_id;
            wallet = library.wallet_of signing_key;
            provider = provider;
          })
        ],
        e',
      )

module _ {E Envelope : Type 0} where
  unfoldable pub id : Chain E Envelope → ℕ
  id c = c.chain_id

  unfoldable pub get_block_number : Chain E Envelope → E → Result ChainError ℕ × E
  get_block_number c e = let (r, e') = c.provider.block_number e in (or_rpc r, e')

  unfoldable pub get_account_nonce : Chain E Envelope → ℕ → E → Result ChainError ℕ × E
  get_account_nonce c address e =
      let (r, e') = c.provider.transaction_count address e in (or_rpc r, e')

  unfoldable pub get_receipt : Chain E Envelope → ℕ → E → Result ChainError (Option Receipt) × E
  get_receipt c tx_hash e = let (r, e') = c.provider.transaction_receipt tx_hash e in (or_rpc r, e')

  -- A signed transaction is sent; a refused signature ends the call before that.
  unfoldable pub send_signed :
      Chain E Envelope → Result String Envelope → E → Result ChainError (Watcher E) × E
  send_signed c (ok envelope) e =
      let (r, e') = c.provider.send_tx_envelope envelope e in (or_rpc r, e')
  send_signed c (err why) e = (err (signing why), e)

  unfoldable pub send_transaction :
      Chain E Envelope → TxEip1559 → E → Result ChainError (Watcher E) × E
  unfolding send_signed
  send_transaction c tx e =
      let (signed, e') = c.wallet.sign_transaction tx e in send_signed c signed e'

  -- What the receiver gets, if it is kept.
  unfoldable pub subscribe_new_blocks : Chain E Envelope → E → Result ChainError (List Header) × E
  unfolding forward
  subscribe_new_blocks c e =
      let (subscribed, e') = c.provider.subscribe_blocks e in
      (
        elim subscribed [
          | ok answers ↦ ok (forward (length answers) answers)
          | err why ↦ err (rpc why)
        ],
        e',
      )

  -- `impl ChainClient for Chain`
  unfoldable pub chain_client : Chain E Envelope → ChainClient E
  unfolding id get_block_number get_account_nonce get_receipt send_transaction subscribe_new_blocks
  chain_client c = record {
    id = id c;
    subscribe_new_blocks = subscribe_new_blocks c;
    get_block_number = get_block_number c;
    get_account_nonce = get_account_nonce c;
    get_receipt = get_receipt c;
    send_transaction = send_transaction c;
  }
