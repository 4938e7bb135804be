-- ===== src/Mempool/Query.antt =====
-- crates/mempooloracle/src/lib.rs: `classify_transaction`, the searches of `MempoolInner` and the
-- answers of `MempoolHandle`. A handle reads the state under a lock that is held for one call; the
-- two reads of `estimated_blocks_to_confirm` are modelled without a write between them.
pub mod Ahead
pub mod Located
use bulkmail.Prelude.{
  ℕ, zero, suc, ◌-◌, ◌/◌, List, [], ◌∷◌, Bool, true, false, Option, none, some, leb, ltb, ◌==◌,
  if◌then◌else◌, u64_mod, sub_u64, add_u64, saturating_add_u64,
}
use bulkmail.Mempool.Index.{Keys, range_to, descending}
use bulkmail.Mempool.Queues.{PendingTx, Accounts, lookup, slot_at}
use bulkmail.Mempool.{MempoolInner, effective_priority_fee}
use bulkmail.Mempool.Insert.{priority_key}
use bulkmail.Mempool.Block.{FloatOps}

pub data TxClassification : Type 0 where
  marketable : TxClassification
  base_fee_invalid : TxClassification
  unmarketable : TxClassification
  nonce_bound : TxClassification

unfoldable pub is_marketable_class : TxClassification → Bool
is_marketable_class marketable = true
is_marketable_class base_fee_invalid = false
is_marketable_class unmarketable = false
is_marketable_class nonce_bound = false

-- The loop of `classify_transaction` over the first `n` slots: whether one of them blocks. An index
-- past the end counts as a gap.
unfoldable pub is_blocked : ℕ → ℕ → List (Option PendingTx) → Bool
is_blocked base zero slots = false
is_blocked base (suc n) [] = true
is_blocked base (suc n) (none ∷ slots) = true
is_blocked base (suc n) (some tx ∷ slots) =
    if ltb tx.max_fee_per_gas base
    then true
    else if effective_priority_fee base tx == 0
    then true
    else is_blocked base n slots

unfoldable pub class_of : ℕ → PendingTx → TxClassification
class_of base tx =
    if ltb tx.max_fee_per_gas base
    then base_fee_invalid
    else if effective_priority_fee base tx == 0
    then unmarketable
    else marketable

unfoldable pub find_in_slots : ℕ → List (Option PendingTx) → Option PendingTx
find_in_slots id [] = none
find_in_slots id (none ∷ slots) = find_in_slots id slots
find_in_slots id (some tx ∷ slots) = if tx.id == id then some tx else find_in_slots id slots

unfoldable pub find_tx_by_id : ℕ → Accounts → Option PendingTx
unfolding find_in_slots
find_tx_by_id id [] = none
find_tx_by_id id ((_, q) ∷ accounts) = elim (find_in_slots id q.slots) [
  | none ↦ find_tx_by_id id accounts
  | some tx ↦ some tx
]

module _ {F : Type 0} where
  unfoldable pub classify_transaction : MempoolInner F → PendingTx → TxClassification
  unfolding is_blocked class_of
  classify_transaction m tx = elim (lookup tx.sender m.account_queues) [
    | none ↦ nonce_bound
    | some q ↦
        if is_blocked m.current_base_fee (sub_u64 tx.nonce q.confirmed_nonce) q.slots
        then nonce_bound
        else class_of m.current_base_fee tx
  ]

  unfoldable pub find_tx_by_addr_and_nonce : MempoolInner F → ℕ → ℕ → Option PendingTx
  find_tx_by_addr_and_nonce m addr nonce = elim (lookup addr m.account_queues) [
    | none ↦ none
    | some q ↦
        if leb q.confirmed_nonce nonce then slot_at q.slots (nonce - q.confirmed_nonce) else none
  ]

  unfoldable pub classification : MempoolInner F → ℕ → Option TxClassification
  unfolding find_tx_by_id classify_transaction
  classification m id = elim (find_tx_by_id id m.account_queues) [
    | none ↦ none
    | some tx ↦ some (classify_transaction m tx)
  ]

  unfoldable pub is_marketable : MempoolInner F → ℕ → Option Bool
  unfolding classification
  is_marketable m id = elim (classification m id) [
    | none ↦ none
    | some c ↦ some (is_marketable_class c)
  ]

  -- The gas of the transactions that a list of keys stands for.
  unfoldable pub gas_of_keys : MempoolInner F → Keys → ℕ → ℕ
  unfolding find_tx_by_addr_and_nonce
  gas_of_keys m [] gas = gas
  gas_of_keys m (k ∷ keys) gas =
      gas_of_keys m keys (elim (find_tx_by_addr_and_nonce m k.addr k.nonce) [
        | none ↦ gas
        | some tx ↦ add_u64 gas tx.gas_limit
      ])

  unfoldable pub gas_ahead : MempoolInner F → ℕ → Option ℕ
  unfolding find_tx_by_id classify_transaction gas_of_keys is_marketable_class
  gas_ahead m id = elim (find_tx_by_id id m.account_queues) [
    | none ↦ none
    | some tx ↦
        if is_marketable_class (classify_transaction m tx)
        then some (
            gas_of_keys m
              (range_to descending (priority_key m.current_base_fee tx) m.priority_queue) 0)
        else none
  ]

module _ {F : Type 0} (ops : FloatOps F) where
  unfoldable pub usable_capacity : MempoolInner F → ℕ
  usable_capacity m =
      ops.to_u64
        (ops.mul (ops.of_u64 m.last_block_gas_limit) (ops.sub ops.one m.private_flow_ratio))

  unfoldable pub estimated_blocks_to_confirm : MempoolInner F → ℕ → Option ℕ
  unfolding find_tx_by_id gas_ahead usable_capacity
  estimated_blocks_to_confirm m id = elim (find_tx_by_id id m.account_queues) [
    | none ↦ none
    | some tx ↦ elim (gas_ahead m id) [
      | none ↦ none
      | some gas ↦
          if usable_capacity m == 0
          then some (u64_mod - 1)
          else some (saturating_add_u64 gas tx.gas_limit / usable_capacity m)
    ]
  ]
