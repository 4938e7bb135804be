-- ===== src/Mempool/Query/Located.antt =====
-- crates/mempooloracle/src/lib.rs: where the search by identifier finds a transaction.
use bulkmail.Prelude.{
  ℕ, suc, ◌-◌, ◌≤◌, ◌≡◌, ◌∙◌, sym, refl, List, [], ◌∷◌, Option, none, some, true, arith, ◌==◌,
  ==→eq, ==_self, Bool-cases, Option-cases, inl, inr, leb,
}
use bulkmail.Mempool.Queues.{PendingTx, AccountQueue, Accounts, lookup, slot_at}
use bulkmail.Mempool.Queues.Slotted.{Slotted-slot_at}
use bulkmail.Mempool.Queues.Placed.{Placed, lookup-Other}
use bulkmail.Mempool.{MempoolInner}
use bulkmail.Mempool.Insert.Placed.{IsPlaced}
use bulkmail.Mempool.Query.{find_in_slots, find_tx_by_id, find_tx_by_addr_and_nonce}

find_in_slots-at :
    (id : ℕ) (slots : List (Option PendingTx)) (tx : PendingTx)
    → find_in_slots id slots ≡ some tx
    → (i : ℕ) × (slot_at slots i ≡ some tx) × (tx.id ≡ id)
unfolding find_in_slots slot_at
find_in_slots-at id [] tx h = cc
find_in_slots-at id (none ∷ slots) tx h =
    let (i, at, same) = find_in_slots-at id slots tx h in (suc i, at, same)
find_in_slots-at id (some t ∷ slots) tx h = elim (Bool-cases (t.id == id)) [
  | inl it ↦ let e : t ≡ tx = cc in (0, rw e refl, rw (← e) (==→eq t.id id it))
  | inr other ↦ let (i, at, same) = find_in_slots-at id slots tx cc in (suc i, at, same)
]

-- The place of a transaction: in the queue of its account, at its nonce.
abbrev pub At : Accounts → PendingTx → Type 0
At m tx =
    (q : AccountQueue) × (lookup tx.sender m ≡ some q)
    × (q.confirmed_nonce ≤ tx.nonce)
    × (slot_at q.slots (tx.nonce - q.confirmed_nonce) ≡ some tx)

find_tx_by_id-At :
    (id : ℕ) (m : Accounts) (tx : PendingTx)
    → Placed m
    → find_tx_by_id id m ≡ some tx
    → At m tx × (tx.id ≡ id)
unfolding find_tx_by_id lookup
find_tx_by_id-At id [] tx w h = cc
find_tx_by_id-At id ((a, q) ∷ m) tx w h = elim (Option-cases (find_in_slots id q.slots)) [
  | inr (t, e) ↦
      let it : find_in_slots id q.slots ≡ some tx = cc in
      let (i, at, same) = find_in_slots-at id q.slots tx it in
      let (sender, nonce) = Slotted-slot_at a q.confirmed_nonce i q.slots tx w.0.0 at in
      let place : tx.nonce - q.confirmed_nonce ≡ i = omega (arith, nonce) in
      ((q, rw (sender, ==_self a) refl, omega (arith, nonce), rw place at), same)
  | inl e ↦
      let ((r, found, open_, at), same) = find_tx_by_id-At id m tx (w.0.1, w.1.1) (cc) in
      elim (Bool-cases (tx.sender == a)) [
        | inr other ↦ ((r, rw other found, open_, at), same)
        | inl here ↦
            let nowhere = lookup-Other a m w.1.0 in
            let e' = ==→eq tx.sender a here in
            let clash : none ≡ some r = sym nowhere ∙ rw (← e') found in absurd (cc)
      ]
]

module _ {F : Type 0} where
  -- In a placed state, a search by account and nonce finds what the search by identifier finds.
  pub find_tx_by_id-find_tx_by_addr_and_nonce :
      (m : MempoolInner F) (id : ℕ) (tx : PendingTx)
      → IsPlaced m
      → find_tx_by_id id m.account_queues ≡ some tx
      → (find_tx_by_addr_and_nonce m tx.sender tx.nonce ≡ some tx) × (tx.id ≡ id)
  unfolding find_tx_by_addr_and_nonce
  find_tx_by_id-find_tx_by_addr_and_nonce m id tx w h =
      let ((q, found, open_, at), same) = find_tx_by_id-At id m.account_queues tx w h in
      let below : leb q.confirmed_nonce tx.nonce ≡ true = ground arith in
      (rw (found, find_tx_by_addr_and_nonce) (rw below at), same)
