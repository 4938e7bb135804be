-- ===== src/Mempool/Query/Ahead.antt =====
-- crates/mempooloracle/src/lib.rs: `gas_ahead` and `estimated_blocks_to_confirm` along the order of
-- the priority queue.
use native.Mathlib.Nat.{div-lt_iff_lt-mul}
use bulkmail.Prelude.{
  ℕ, ◌≡◌, ◌≤◌, ◌<◌, ◌+◌, ◌*◌, ◌-◌, ◌/◌, ◌==◌, ◌∙◌, ap, [], ◌∷◌, Option, none, some, Bool, true,
  false, arith, if_either, if◌then◌else◌, Bool-cases, Option-cases, inl, inr, All, u64_mod, add_u64,
  saturating_add_u64, refl,
}
use bulkmail.Mempool.Index.{Key, Keys, contains, range_to, descending, same_key}
use bulkmail.Mempool.Index.Sorted.{Sorted, Comes, Comes-trans}
use bulkmail.Mempool.Queues.{PendingTx}
use bulkmail.Mempool.{MempoolInner}
use bulkmail.Mempool.Insert.{priority_key}
use bulkmail.Mempool.Block.{FloatOps}
use bulkmail.Mempool.Query.{
  find_tx_by_addr_and_nonce, find_tx_by_id, gas_of_keys, gas_ahead, classify_transaction,
  is_marketable_class, usable_capacity, estimated_blocks_to_confirm,
}

unfoldable pub gas_of : Option PendingTx → ℕ
gas_of none = 0
gas_of (some tx) = tx.gas_limit

All-contains : (x k : Key) (s : Keys) → All (Comes x) s → contains k s ≡ true → Comes x k
unfolding contains
All-contains x k [] a h = cc
All-contains x k (y ∷ s) a h = elim (Bool-cases (same_key k y)) [
  | inl same ↦ let at : Comes x y = a.0 in ground arith
  | inr other ↦ All-contains x k s a.1 cc
]

range_to_after :
    (x k : Key) (s : Keys) → descending x k ≡ false → range_to descending k (x ∷ s) ≡ []
unfolding range_to
range_to_after x k s h = rw h refl

range_to_before :
    (x k : Key) (s : Keys) → Comes x k → range_to descending k (x ∷ s) ≡ x ∷ range_to descending k s
unfolding range_to
range_to_before x k s h = rw h refl

-- Keys that are the same are of one account and nonce, and neither comes before the other.
same_key-place :
    (k x : Key)
    → same_key k x ≡ true
    → (x.addr ≡ k.addr) × (x.nonce ≡ k.nonce) × (descending x k ≡ false)
same_key-place k x h = (ground arith, ground arith, ground arith)

same_key-Comes : (k x j : Key) → same_key k x ≡ true → Comes k j → Comes x j
same_key-Comes k x j h c = ground arith

module _ {F : Type 0} (m : MempoolInner F) where
  -- The gas of the transaction that a key stands for.
  abbrev pub key_gas : Key → ℕ
  unfolding gas_of
  key_gas k = gas_of (find_tx_by_addr_and_nonce m k.addr k.nonce)

  pub key_gas_found :
      (k : Key) (tx : PendingTx)
      → find_tx_by_addr_and_nonce m k.addr k.nonce ≡ some tx
      → key_gas k ≡ tx.gas_limit
  unfolding gas_of key_gas
  key_gas_found k tx h = ap gas_of h

  -- The sum of these, without the wrap of the machine's addition.
  unfoldable pub total : Keys → ℕ
  total [] = 0
  total (k ∷ keys) = key_gas k + total keys

  gas_of_keys-cons :
      (k : Key) (keys : Keys) (g : ℕ)
      → gas_of_keys m (k ∷ keys) g
        ≡ gas_of_keys m keys (elim (find_tx_by_addr_and_nonce m k.addr k.nonce) [
          | none ↦ g
          | some tx ↦ add_u64 g tx.gas_limit
        ])
  unfolding gas_of_keys
  gas_of_keys-cons k keys g = refl

  gas_of_keys-total :
      (keys : Keys) (g : ℕ) → g + total keys < u64_mod → gas_of_keys m keys g ≡ g + total keys
  unfolding gas_of_keys total key_gas gas_of
  gas_of_keys-total [] g small = omega arith
  gas_of_keys-total (k ∷ keys) g small =
      elim (Option-cases (find_tx_by_addr_and_nonce m k.addr k.nonce)) [
        | inl e ↦
            let none_there : key_gas k ≡ 0 = ap gas_of e in
            rw (e, gas_of_keys)
              (gas_of_keys-total keys g (omega (arith, none_there, small))
                ∙ omega (arith, none_there))
        | inr (tx, e) ↦
            let there : key_gas k ≡ tx.gas_limit = ap gas_of e in
            let sum : add_u64 g tx.gas_limit ≡ g + tx.gas_limit = omega (arith, there, small) in
            rw (e, gas_of_keys)
              (rw sum (
                gas_of_keys-total keys (g + tx.gas_limit) (omega (arith, there, small))
                ∙ omega (arith, there)))
      ]

  total-range_to : (k : Key) (s : Keys) → total (range_to descending k s) ≤ total s
  unfolding total range_to
  total-range_to k [] = omega arith
  total-range_to k (x ∷ s) =
      if_either (λ (keys : Keys). total keys ≤ total (x ∷ s)) (descending x k)
        {x = x ∷ range_to descending k s} {y = []} (λ _. omega (arith, total-range_to k s))
        (λ _. omega arith)

  -- A transaction that comes later waits for all that an earlier one waits for, and for that one.
  pub total-range_to_later :
      (k j : Key) (s : Keys)
      → Sorted s
      → contains k s ≡ true
      → Comes k j
      → total (range_to descending k s) + key_gas k ≤ total (range_to descending j s)
  unfolding total contains key_gas
  total-range_to_later k j [] d h c = cc
  total-range_to_later k j (x ∷ s) d h c = elim (Bool-cases (same_key k x)) [
    | inl same ↦
        let (addr, nonce, stop) = same_key-place k x same in
        rw (range_to_after x k s stop) (
          rw (range_to_before x j s (same_key-Comes k x j same c))
            (rw (addr) (rw nonce (omega arith))))
    | inr other ↦
        let there : contains k s ≡ true = cc in
        let first = All-contains x k s d.0 there in
        rw (range_to_before x k s first) (
          rw (range_to_before x j s (Comes-trans x k j first c))
            (omega (arith, total-range_to_later k j s d.1 there c)))
  ]

-- What `estimated_blocks_to_confirm` makes of the gas ahead and the gas of the transaction.
pub blocks : ℕ → ℕ → ℕ → ℕ
blocks capacity gas limit =
    if capacity == 0 then u64_mod - 1 else saturating_add_u64 gas limit / capacity

if_some : (b : Bool) (x y : ℕ) → (if b then some x else some y) ≡ some (if b then x else y)
if_some true x y = refl
if_some false x y = refl

div_mono : (x y k : ℕ) → 1 ≤ k → x ≤ y → x / k ≤ y / k
div_mono x y k pos h =
    let below = div-lt_iff_lt-mul {k = k} {x = x} {y = y / k + 1} (omega arith) in
    let above = div-lt_iff_lt-mul {k = k} {x = y} {y = y / k + 1} (omega arith) in
    let most : y < (y / k + 1) * k = above.0 (omega arith) in
    let less : x / k < y / k + 1 = below.1 (omega (arith, most, h)) in omega (arith, less)

pub blocks_mono :
    (capacity g j gas limit : ℕ) → g + j ≤ gas → blocks capacity g j ≤ blocks capacity gas limit
unfolding blocks
blocks_mono capacity g j gas limit h = elim (Bool-cases (capacity == 0)) [
  | inl none_usable ↦ rw none_usable (omega arith)
  | inr usable ↦ rw usable (
      div_mono (saturating_add_u64 g j) (saturating_add_u64 gas limit) capacity (ground arith)
        (omega (arith, h)))
]

module _ {F : Type 0} (ops : FloatOps F) (m : MempoolInner F) where
  gas_ahead-gas_of_keys :
      (id : ℕ) (tx : PendingTx)
      → find_tx_by_id id m.account_queues ≡ some tx
      → is_marketable_class (classify_transaction m tx) ≡ true
      → gas_ahead m id
        ≡ some (
            gas_of_keys m
              (range_to descending (priority_key m.current_base_fee tx) m.priority_queue)
              0)
  unfolding gas_ahead
  gas_ahead-gas_of_keys id tx found class = rw (found, gas_ahead) (rw class refl)

  pub estimated_blocks_to_confirm-blocks :
      (id : ℕ) (tx : PendingTx)
      → find_tx_by_id id m.account_queues ≡ some tx
      → is_marketable_class (classify_transaction m tx) ≡ true
      → total m m.priority_queue < u64_mod
      → estimated_blocks_to_confirm ops m id
        ≡ some (
            blocks
              (usable_capacity ops m)
              (total m (range_to descending (priority_key m.current_base_fee tx) m.priority_queue))
              tx.gas_limit)
  unfolding estimated_blocks_to_confirm blocks
  estimated_blocks_to_confirm-blocks id tx found class small =
      let keys = range_to descending (priority_key m.current_base_fee tx) m.priority_queue in
      let within = total-range_to m (priority_key m.current_base_fee tx) m.priority_queue in
      let sum : gas_of_keys m keys 0 ≡ total m keys =
        gas_of_keys-total m keys 0 (omega (arith, within, small)) ∙ omega arith in
      rw (found, estimated_blocks_to_confirm)
        (rw (gas_ahead-gas_of_keys id tx found class, estimated_blocks_to_confirm)
          (rw sum (
            if_some (usable_capacity ops m == 0) (u64_mod - 1)
              (saturating_add_u64 (total m keys) tx.gas_limit / usable_capacity ops m))))
