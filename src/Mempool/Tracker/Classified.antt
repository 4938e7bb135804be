-- ===== src/Mempool/Tracker/Classified.antt =====
-- crates/mempooloracle/src/lib.rs: after a block, `classify_transaction` and the priority queue agree.
use bulkmail.Prelude.{
  subst, ℕ, ◌-◌, ◌<◌, ◌≤◌, ◌≡◌, refl, sym, ap, ◌∙◌, inl, inr, ◌↔◌, List, [], ◌∷◌, true, false, none,
  some, ◌==◌, arith, Bool-cases, ==_self, ==→eq, u64_mod, sub_u64, if◌then◌else◌,
}
use bulkmail.Mempool.Index.{Key, contains, same_key}
use bulkmail.Mempool.Queues.{PendingTx, AccountQueue, Accounts, lookup, slot_at}
use bulkmail.Mempool.Queues.Slotted.{IsSlotted, Slotted-slot_at}
use bulkmail.Mempool.Queues.Placed.{Placed, lookup-Other, lookup-Placed}
use bulkmail.Mempool.{MempoolInner, BlockUpdate, TrackerConfig}
use bulkmail.Mempool.Insert.{priority_key}
use bulkmail.Mempool.Insert.Placed.{IsPlaced}
use bulkmail.Mempool.Block.{FloatOps, apply_block}
use bulkmail.Mempool.Block.Kept.{apply_block-IsPlaced}
use bulkmail.Mempool.Block.Ranked.{Ranks, RanksIn, apply_block-RanksIn}
use bulkmail.Mempool.Query.{
  TxClassification, marketable, nonce_bound, is_blocked, class_of, classify_transaction,
  find_tx_by_addr_and_nonce,
}
use bulkmail.Mempool.Tracker.{MempoolEvent, from_channel, run}
use bulkmail.Mempool.Tracker.Found.{reached-IsPlaced, find_tx_by_addr_and_nonce-at}

same_key_addr : (j k : Key) → same_key j k ≡ true → (j.addr ≡ k.addr) × (j.nonce ≡ k.nonce)
same_key_addr j k h = (ground arith, ground arith)

same_key_self : (k : Key) → same_key k k ≡ true
same_key_self k = ground arith

-- A key ranks only in the queue of its own account.
RanksIn-lookup :
    (base : ℕ) (m : Accounts) (j : Key)
    → Placed m
    → RanksIn base m j
    → (q : AccountQueue) × (lookup j.addr m ≡ some q) × Ranks base q.slots j
unfolding lookup
RanksIn-lookup base [] j w r = absurd r
RanksIn-lookup base ((a, q) ∷ m) j w (inl (i, tx, at, free, class, same)) =
    let (sender, _) = Slotted-slot_at a q.confirmed_nonce i q.slots tx w.0.0 at in
    let here : j.addr ≡ a = (same_key_addr j (priority_key base tx) same).0 ∙ sender in
    (q, rw (here, ==_self a) refl, (i, tx, at, free, class, same))
RanksIn-lookup base ((a, q) ∷ m) j w (inr later) =
    let (r, found, ranks) = RanksIn-lookup base m j (w.0.1, w.1.1) later in
    elim (Bool-cases (j.addr == a)) [
      | inr other ↦ (r, rw other found, ranks)
      | inl here ↦
          let nowhere = lookup-Other a m w.1.0 in
          let e = ==→eq j.addr a here in
          let clash : none ≡ some r = sym nowhere ∙ rw (← e) found in absurd (cc)
    ]

lookup-RanksIn :
    (base a : ℕ) (m : Accounts) (q : AccountQueue) (j : Key)
    → lookup a m ≡ some q
    → Ranks base q.slots j
    → RanksIn base m j
unfolding lookup
lookup-RanksIn base a [] q j h r = cc
lookup-RanksIn base a ((b, s) ∷ m) q j h r = elim (Bool-cases (a == b)) [
  | inl same ↦ let e : s ≡ q = cc in inl (rw e r)
  | inr other ↦ inr (lookup-RanksIn base a m q j (cc) r)
]

-- The class of a transaction of the queue `q`, at its place `i` in it.
class_at : ℕ → ℕ → AccountQueue → PendingTx → TxClassification
class_at base i q tx = if is_blocked base i q.slots then nonce_bound else class_of base tx

class_at-marketable :
    (base i : ℕ) (q : AccountQueue) (tx : PendingTx)
    → class_at base i q tx ≡ marketable
    → (is_blocked base i q.slots ≡ false) × (class_of base tx ≡ marketable)
unfolding class_at
class_at-marketable base i q tx h = elim (Bool-cases (is_blocked base i q.slots)) [
  | inl blocked ↦ cc
  | inr free ↦ (free, cc)
]

class_at-free :
    (base i : ℕ) (q : AccountQueue) (tx : PendingTx)
    → is_blocked base i q.slots ≡ false
    → class_of base tx ≡ marketable
    → class_at base i q tx ≡ marketable
unfolding class_at
class_at-free base i q tx free class = rw free class

-- The place `i` of a transaction with the nonce of `tx`, in a queue where `tx` itself has its place.
same_place :
    (a i : ℕ) (q : AccountQueue) (tx other : PendingTx)
    → IsSlotted (a, q)
    → slot_at q.slots i ≡ some other
    → other.nonce ≡ tx.nonce
    → slot_at q.slots (tx.nonce - q.confirmed_nonce) ≡ some tx
    → (i ≡ tx.nonce - q.confirmed_nonce) × (other ≡ tx)
same_place a i q tx other s at e own =
    let (_, place) = Slotted-slot_at a q.confirmed_nonce i q.slots other s at in
    let here : i ≡ tx.nonce - q.confirmed_nonce = omega (arith, place, e) in
    let both : some other ≡ some tx = sym at ∙ ap (slot_at q.slots) here ∙ own in (here, cc)

module _ {F : Type 0} where
  -- A transaction is classified by its place in its queue.
  classify_transaction-at :
      (m : MempoolInner F) (tx : PendingTx) (q : AccountQueue)
      → tx.nonce < u64_mod
      → lookup tx.sender m.account_queues ≡ some q
      → q.confirmed_nonce ≤ tx.nonce
      → classify_transaction m tx ≡ class_at m.current_base_fee (tx.nonce - q.confirmed_nonce) q tx
  unfolding classify_transaction class_at
  classify_transaction-at m tx q small found open_ =
      let place : sub_u64 tx.nonce q.confirmed_nonce ≡ tx.nonce - q.confirmed_nonce = omega arith in
      rw (found, place, classify_transaction) refl

  RanksIn-marketable :
      (m : MempoolInner F) (tx : PendingTx) (q : AccountQueue)
      → tx.nonce < u64_mod
      → IsPlaced m
      → lookup tx.sender m.account_queues ≡ some q
      → q.confirmed_nonce ≤ tx.nonce
      → slot_at q.slots (tx.nonce - q.confirmed_nonce) ≡ some tx
      → RanksIn m.current_base_fee m.account_queues (priority_key m.current_base_fee tx)
      → classify_transaction m tx ≡ marketable
  RanksIn-marketable m tx q small w found open_ own r =
      let (q', found', (i, other, at, free, class, same)) =
        RanksIn-lookup m.current_base_fee m.account_queues (priority_key m.current_base_fee tx) w
          r in
      let one : q' ≡ q = cc in
      let in_q : slot_at q.slots i ≡ some other =
        subst (λ k. slot_at k.slots i ≡ some other) one at in
      let e =
        (same_key_addr (priority_key m.current_base_fee tx) (priority_key m.current_base_fee other)
          same).1 in
      let (here, it) =
        same_place tx.sender i q tx other (lookup-Placed tx.sender m.account_queues q w found) in_q
          (sym e) own in
      classify_transaction-at m tx q small found open_
      ∙ class_at-free m.current_base_fee (tx.nonce - q.confirmed_nonce) q tx
          (ap (λ k. is_blocked m.current_base_fee k q.slots) (sym here)
            ∙ ap (λ k. is_blocked m.current_base_fee i k.slots) (sym one)
            ∙ free)
          (ap (class_of m.current_base_fee) (sym it) ∙ class)

  marketable-RanksIn :
      (m : MempoolInner F) (tx : PendingTx) (q : AccountQueue)
      → tx.nonce < u64_mod
      → lookup tx.sender m.account_queues ≡ some q
      → q.confirmed_nonce ≤ tx.nonce
      → slot_at q.slots (tx.nonce - q.confirmed_nonce) ≡ some tx
      → classify_transaction m tx ≡ marketable
      → RanksIn m.current_base_fee m.account_queues (priority_key m.current_base_fee tx)
  marketable-RanksIn m tx q small found open_ own c =
      let (free, class) =
        class_at-marketable m.current_base_fee (tx.nonce - q.confirmed_nonce) q tx
          (sym (classify_transaction-at m tx q small found open_) ∙ c) in
      lookup-RanksIn m.current_base_fee tx.sender m.account_queues q
        (priority_key m.current_base_fee tx) found
        (
          tx.nonce - q.confirmed_nonce,
          tx,
          own,
          free,
          class,
          same_key_self (priority_key m.current_base_fee tx),
        )

module _ {F : Type 0} (ops : FloatOps F) where
  -- In every state of the tracker right after a block: a tracked transaction, one that the search by
  -- its account and 64-bit nonce finds, is classified as marketable exactly if its key is in the
  -- priority queue.
  pub apply_block-classify_transaction :
      (initial_txs : List PendingTx) (config : TrackerConfig F) (events : List MempoolEvent)
      (block : BlockUpdate) (tx : PendingTx)
      → let m = apply_block ops block (run ops events (from_channel initial_txs config)) in
        tx.nonce < u64_mod
        → find_tx_by_addr_and_nonce m tx.sender tx.nonce ≡ some tx
        → (classify_transaction m tx ≡ marketable)
          ↔ (contains (priority_key m.current_base_fee tx) m.priority_queue ≡ true)
  apply_block-classify_transaction initial_txs config events block tx small h =
      let m₀ = run ops events (from_channel initial_txs config) in
      let m = apply_block ops block m₀ in
      let w = apply_block-IsPlaced ops block m₀ (reached-IsPlaced ops initial_txs config events) in
      let (q, found, open_, own) = find_tx_by_addr_and_nonce-at m tx.sender tx.nonce tx h in
      let ranked = apply_block-RanksIn ops block m₀ (priority_key m.current_base_fee tx) in
      (
        λ c. ranked.1 (marketable-RanksIn m tx q small found open_ own c),
        λ k. RanksIn-marketable m tx q small w found open_ own (ranked.0 k),
      )
