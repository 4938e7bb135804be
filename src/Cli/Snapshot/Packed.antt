-- ===== src/Cli/Snapshot/Packed.antt =====
-- crates/mempooloracle/examples/cli_tool.rs: which transactions a snapshot packs into the next block.
use bulkmail.Prelude.{
  ℕ, ◌≡◌, ◌≤◌, ◌<◌, ◌+◌, refl, List, [], ◌∷◌, length, Option, none, some, All, arith, add_u64,
  u64_mod, ltb, Bool-cases, inl, inr,
}
use bulkmail.Mempool.Index.{Keys}
use bulkmail.Mempool.Queues.{PendingTx}
use bulkmail.Mempool.Block.{FloatOps}
use bulkmail.Cli.Snapshot.{
  TelemetrySource, Answers, Packing, empty_packing, add_row, pack, visit, pack_keys, tx_row,
  capture,
}

-- A transaction with the fee of the key under which it was found. After a replacement this need not be
-- what the transaction pays.
abbrev pub Listed : Type 0
Listed = ℕ × PendingTx

abbrev pub list_found : ℕ → Option PendingTx → List Listed → List Listed
list_found fee none rest = rest
list_found fee (some tx) rest = (fee, tx) ∷ rest

-- What the handle finds for the keys, in their order.
unfoldable pub listed : (ℕ → ℕ → Option PendingTx) → Keys → List Listed
listed find [] = []
listed find (k ∷ keys) = list_found k.fee (find k.addr k.nonce) (listed find keys)

-- A list dealt into two, each in its order.
pub data Deals : List Listed → List Listed → List Listed → Type 0 where
  done : Deals [] [] []
  take :
      {e : Listed} {all taken left : List Listed}
      → Deals all taken left
      → Deals (e ∷ all) (e ∷ taken) left
  leave :
      {e : Listed} {all taken left : List Listed}
      → Deals all taken left
      → Deals (e ∷ all) taken (e ∷ left)

abbrev pub total_gas : List Listed → ℕ
total_gas [] = 0
total_gas (e ∷ es) = e.1.gas_limit + total_gas es

abbrev pub last_fee : ℕ → List Listed → ℕ
last_fee fee [] = fee
last_fee fee (e ∷ es) = last_fee e.0 es

abbrev pub NoWrap : ℕ → Listed → Type 0
NoWrap usable e = usable + e.1.gas_limit < u64_mod

abbrev pub TooBig : ℕ → ℕ → Listed → Type 0
TooBig usable gas e = usable < gas + e.1.gas_limit

-- From gas `gas`, `txs` transactions and the fee `tip` to `p`: what was taken accounts for the
-- difference, and nothing left fits beside it.
abbrev pub Packs : ℕ → ℕ → ℕ → ℕ → List Listed → Packing → Type 0
Packs usable gas txs tip entries p =
    (taken : List Listed) × (left : List Listed) × Deals entries taken left
    × (p.gas_used ≡ gas + total_gas taken)
    × (p.expected_txs ≡ txs + length taken)
    × (p.min_tip ≡ last_fee tip taken)
    × All (TooBig usable p.gas_used) left

-- The rest of the loop from any packing that is within the capacity.
abbrev Rest : ℕ → ℕ → List Listed → (Packing → Packing) → Type 0
Rest usable n entries loop =
    (q : Packing)
    → q.gas_used ≤ usable
    → q.expected_txs + n < u64_mod
    → Packs usable q.gas_used q.expected_txs q.min_tip entries (loop q)

pack-Packs :
    (usable n fee : ℕ) (tx : PendingTx) (entries : List Listed) (loop : Packing → Packing)
    (q : Packing)
    → NoWrap usable (fee, tx)
    → q.gas_used ≤ usable
    → q.expected_txs + (n + 1) < u64_mod
    → Rest usable n entries loop
    → Packs usable q.gas_used q.expected_txs q.min_tip
        ((fee, tx) ∷ entries)
        (loop (pack usable fee tx q))
unfolding pack
pack-Packs usable n fee tx entries loop q fits low few rest =
    elim (Bool-cases (ltb usable (add_u64 q.gas_used tx.gas_limit))) [
      | inl over ↦
          let (taken, left, deal, gas, txs, tip, big) = rest q low (omega (arith, few)) in
          rw (pack, over)
            (taken, (fee, tx) ∷ left, Deals.leave deal, gas, txs, tip, (ground arith, big))
      | inr within ↦
          let q' : Packing = record q {
            gas_used = add_u64 q.gas_used tx.gas_limit;
            min_tip = fee;
            expected_txs = add_u64 q.expected_txs 1;
          } in
          let (taken, left, deal, gas, txs, tip, big) = rest q' (ground arith) (ground arith) in
          rw (pack, within)
            ((fee, tx) ∷ taken, left, Deals.take deal, ground arith, ground arith, tip, big)
    ]

visit-Packs :
    (usable n fee : ℕ) (found : Option PendingTx) (eta : ℕ → Option ℕ) (entries : List Listed)
    (loop : Packing → Packing) (q : Packing)
    → All (NoWrap usable) (list_found fee found entries)
    → q.gas_used ≤ usable
    → q.expected_txs + (n + 1) < u64_mod
    → Rest usable n entries loop
    → Packs usable q.gas_used q.expected_txs q.min_tip
        (list_found fee found entries)
        (loop (visit usable fee found eta q))
unfolding add_row
visit-Packs usable n fee none eta entries loop q h low few rest = rest q low (omega (arith, few))
visit-Packs usable n fee (some tx) eta entries loop q h low few rest =
    pack-Packs usable n fee tx entries loop (add_row (tx_row fee tx (eta tx.id)) q) h.0 low few rest

list_found-All :
    (P : Listed → Type 0) (fee : ℕ) (found : Option PendingTx) (rest : List Listed)
    → All P (list_found fee found rest)
    → All P rest
list_found-All P fee none rest h = h
list_found-All P fee (some tx) rest h = h.1

pack_keys-Packs :
    (usable : ℕ) (find : ℕ → ℕ → Option PendingTx) (eta : ℕ → Option ℕ) (keys : Keys)
    → All (NoWrap usable) (listed find keys)
    → Rest usable (length keys) (listed find keys) (pack_keys usable find eta keys)
unfolding pack_keys listed
pack_keys-Packs usable find eta [] h q low few =
    ([], [], Deals.done, omega arith, omega arith, refl, tt)
pack_keys-Packs usable find eta (k ∷ keys) h q low few =
    let rest = listed find keys in
    visit-Packs usable (length keys) k.fee (find k.addr k.nonce) eta rest
      (pack_keys usable find eta keys) q h low (ground arith)
      (pack_keys-Packs usable find eta keys
        (list_found-All (NoWrap usable) k.fee (find k.addr k.nonce) rest h))

module _ {F : Type 0} (ops : FloatOps F) (round : F → F) where
  -- Where no addition of gas can wrap and the keys are fewer than 2^64, whatever the calls of the handle
  -- answer: the transactions found are dealt, in order, into those packed and those left out.
  -- The packed ones' gas is the packed gas, their number the expected one, and the fee of the last of them
  -- the least tip (0 if there is none); and the gas of any transaction left out would exceed the usable
  -- capacity if it was added to the packed gas.
  pub capture-Packs :
      (a : Answers F) (telemetry : TelemetrySource) (elapsed : ℕ)
      → let s = capture ops round a telemetry elapsed in
        let found = listed a.find_tx_by_addr_and_nonce a.priority_queue in
        All (NoWrap s.usable_capacity) found
        → length a.priority_queue < u64_mod
        → (taken : List Listed) × (left : List Listed) × Deals found taken left
          × (s.gas_used_for_next_block ≡ total_gas taken)
          × (s.expected_txs ≡ length taken)
          × (s.min_tip ≡ last_fee 0 taken)
          × All (TooBig s.usable_capacity s.gas_used_for_next_block) left
  unfolding capture
  capture-Packs a telemetry elapsed h few =
      let s = capture ops round a telemetry elapsed in
      let (taken, left, deal, gas, txs, tip, big) =
        pack_keys-Packs s.usable_capacity a.find_tx_by_addr_and_nonce a.estimated_blocks_to_confirm
          a.priority_queue h empty_packing (omega arith) (omega (arith, few)) in
      (taken, left, deal, omega (arith, gas), omega (arith, txs), tip, big)
