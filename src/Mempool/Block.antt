-- ===== src/Mempool/Block.antt =====
-- crates/mempooloracle/src/lib.rs: `MempoolInner::apply_block`.
pub mod Bounded
pub mod Indexed
pub mod Kept
pub mod Ranked
use bulkmail.Prelude.{
  ℕ, ◌-◌, List, [], ◌∷◌, Bool, true, false, Option, none, some, leb, ltb, if◌then◌else◌, drop, set,
  max, add_u64,
}
use bulkmail.Mempool.Index.{Keys, insert as insert_key, remove, descending}
use bulkmail.Mempool.Queues.{PendingTx, AccountQueue, Accounts, lookup, put, slot_at}
use bulkmail.Mempool.{MempoolInner, BlockUpdate, effective_priority_fee}
use bulkmail.Mempool.Insert.{eligibility_key, priority_key}

-- The floating-point operations that the tracker uses; `tenth` is 0.1 and `to_u64` the cast.
pub record FloatOps (F : Type 0) : Type 0 where
  pub of_u64 : ℕ → F
  pub one : F
  pub tenth : F
  pub add : F → F → F
  pub sub : F → F → F
  pub mul : F → F → F
  pub div : F → F → F
  pub to_u64 : F → ℕ

-- The tracked transaction that an included one stands for, by sender and nonce.
unfoldable pub tracked : Accounts → PendingTx → Option PendingTx
tracked accounts tx = elim (lookup tx.sender accounts) [
  | none ↦ none
  | some q ↦
      if leb q.confirmed_nonce tx.nonce
      then slot_at q.slots (tx.nonce - q.confirmed_nonce)
      else none
]

-- Part 1: the gas of the included transactions that were known.
unfoldable pub known_gas_used : Accounts → List PendingTx → ℕ → ℕ
unfolding tracked
known_gas_used accounts [] gas = gas
known_gas_used accounts (tx ∷ txs) gas =
    known_gas_used accounts txs
      (elim (tracked accounts tx) [ none ↦ gas | some _ ↦ add_u64 gas tx.gas_limit ])

module _ {F : Type 0} (ops : FloatOps F) where
  unfoldable pub flow_update : F → BlockUpdate → ℕ → F
  flow_update ratio block known =
      let observed = ops.div (ops.of_u64 (block.gas_used - known)) (ops.of_u64 block.gas_limit) in
      if ltb 0 block.gas_limit
      then ops.add (ops.mul ops.tenth observed) (ops.mul (ops.sub ops.one ops.tenth) ratio)
      else ratio

module _ {F : Type 0} where
  -- Part 2: a confirmed transaction, taken out of its slot and of both indexes.
  unfoldable pub remove_tracked :
      PendingTx → AccountQueue → Option PendingTx → MempoolInner F → MempoolInner F
  remove_tracked tx q none m = m
  remove_tracked tx q (some old) m = record m {
    account_queues =
        put tx.sender (record q { slots = set q.slots (tx.nonce - q.confirmed_nonce) none })
          m.account_queues;
    base_fee_eligibility = remove (eligibility_key old) m.base_fee_eligibility;
    priority_queue = remove (priority_key m.current_base_fee old) m.priority_queue;
  }

  unfoldable pub remove_included : PendingTx → MempoolInner F → MempoolInner F
  unfolding remove_tracked
  remove_included tx m = elim (lookup tx.sender m.account_queues) [
    | none ↦ m
    | some q ↦
        if leb q.confirmed_nonce tx.nonce
        then remove_tracked tx q (slot_at q.slots (tx.nonce - q.confirmed_nonce)) m
        else m
  ]

  unfoldable pub remove_all : List PendingTx → MempoolInner F → MempoolInner F
  unfolding remove_included
  remove_all [] m = m
  remove_all (tx ∷ txs) m = remove_all txs (remove_included tx m)

-- Part 3: the confirmed nonce of a queue moves past the included one, and its slots with it. A
-- drain of all the slots clears them.
unfoldable pub advance_queue : ℕ → AccountQueue → AccountQueue
advance_queue nonce q =
    let confirmed = max q.confirmed_nonce (add_u64 nonce 1) in
    record { confirmed_nonce = confirmed; slots = drop (confirmed - q.confirmed_nonce) q.slots }

unfoldable pub advance : List PendingTx → Accounts → Accounts
unfolding advance_queue
advance [] accounts = accounts
advance (tx ∷ txs) accounts = advance txs (elim (lookup tx.sender accounts) [
  | none ↦ accounts
  | some q ↦ put tx.sender (advance_queue tx.nonce q) accounts
])

-- Part 5: the slots of one account, in order of their nonces, until one cannot be included.
unfoldable pub rank_slots : ℕ → Bool → List (Option PendingTx) → Keys → Keys
rank_slots base nonce_bound [] ranked = ranked
rank_slots base nonce_bound (none ∷ slots) ranked = rank_slots base true slots ranked
rank_slots base true (some tx ∷ slots) ranked = rank_slots base true slots ranked
rank_slots base false (some tx ∷ slots) ranked =
    let blocked = rank_slots base true slots ranked in
    let open_ = rank_slots base false slots (insert_key descending (priority_key base tx) ranked) in
    if ltb tx.max_fee_per_gas base
    then blocked
    else if ltb 0 (effective_priority_fee base tx)
    then open_
    else blocked

unfoldable pub rank_accounts : ℕ → Accounts → Keys → Keys
unfolding rank_slots
rank_accounts base [] ranked = ranked
rank_accounts base ((_, q) ∷ accounts) ranked =
    rank_accounts base accounts (rank_slots base false q.slots ranked)

module _ {F : Type 0} (ops : FloatOps F) where
  unfoldable pub apply_block : BlockUpdate → MempoolInner F → MempoolInner F
  unfolding known_gas_used flow_update remove_all advance rank_accounts
  apply_block block m =
      let known = known_gas_used m.account_queues block.included_txs 0 in
      let removed = remove_all block.included_txs m in
      let accounts = advance block.included_txs removed.account_queues in
      record {
        account_queues = accounts;
        base_fee_eligibility = removed.base_fee_eligibility;
        priority_queue = rank_accounts block.new_base_fee accounts [];
        config = m.config;
        current_base_fee = block.new_base_fee;
        private_flow_ratio = flow_update ops m.private_flow_ratio block known;
        last_block_gas_limit = block.gas_limit;
      }
