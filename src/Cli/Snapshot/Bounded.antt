-- ===== src/Cli/Snapshot/Bounded.antt =====
-- crates/mempooloracle/examples/cli_tool.rs: the bounds of a snapshot's figures.
use native.Mathlib.Nat.{div-lt_iff_lt-mul}
use bulkmail.Prelude.{
  ℕ, ◌≡◌, ◌≤◌, ◌+◌, ◌*◌, ◌/◌, min, List, [], ◌∷◌, ◌++◌, length, Option, none, some, arith, add_u64,
  ltb, if_either, if◌then◌else◌, ◌==◌, length-append, true,
}
use bulkmail.Mempool.Index.{Keys}
use bulkmail.Mempool.Queues.{PendingTx}
use bulkmail.Mempool.Block.{FloatOps}
use bulkmail.Cli.Snapshot.{
  TelemetrySource, TxRow, Answers, Packing, empty_packing, add_row, pack, visit, pack_keys, tx_row,
  saturating_mul_u64, capture,
}

-- The bounds after `n` turns.
abbrev IsWithin : ℕ → ℕ → Packing → Type 0
IsWithin usable n p = (p.gas_used ≤ usable) × (p.expected_txs ≤ n) × (length p.ranked_rows ≤ 256)

ltb→lt : (a b : ℕ) → ltb a b ≡ true → a + 1 ≤ b
ltb→lt a b h = ground arith

add_row-IsWithin :
    (usable n : ℕ) (row : TxRow) (p : Packing)
    → IsWithin usable n p
    → IsWithin usable n (add_row row p)
unfolding add_row
add_row-IsWithin usable n row p h =
    let rows : length (add_row row p).ranked_rows ≤ 256 =
      if_either (λ (rows : List TxRow). length rows ≤ 256) (ltb (length p.ranked_rows) 256)
        {x = p.ranked_rows ++ row ∷ []} {y = p.ranked_rows}
        (λ room.
          omega
            (arith, length-append p.ranked_rows (row ∷ []), ltb→lt (length p.ranked_rows) 256 room))
        (λ _. h.2) in
    (h.0, h.1, rows)

pack-IsWithin :
    (usable n fee : ℕ) (tx : PendingTx) (p : Packing)
    → IsWithin usable n p
    → IsWithin usable (n + 1) (pack usable fee tx p)
unfolding pack
pack-IsWithin usable n fee tx p h =
    if_either (IsWithin usable (n + 1)) (ltb usable (add_u64 p.gas_used tx.gas_limit))
      (λ _. (h.0, omega (arith, h.1), h.2)) (λ fits. (ground arith, ground arith, h.2))

visit-IsWithin :
    (usable n fee : ℕ) (found : Option PendingTx) (eta : ℕ → Option ℕ) (p : Packing)
    → IsWithin usable n p
    → IsWithin usable (n + 1) (visit usable fee found eta p)
visit-IsWithin usable n fee none eta p h = (h.0, omega (arith, h.1), h.2)
visit-IsWithin usable n fee (some tx) eta p h =
    let row = tx_row fee tx (eta tx.id) in
    pack-IsWithin usable n fee tx (add_row row p) (add_row-IsWithin usable n row p h)

pack_keys-IsWithin :
    (usable n : ℕ) (find : ℕ → ℕ → Option PendingTx) (eta : ℕ → Option ℕ) (keys : Keys)
    (p : Packing)
    → IsWithin usable n p
    → IsWithin usable (n + length keys) (pack_keys usable find eta keys p)
unfolding pack_keys
pack_keys-IsWithin usable n find eta [] p h = (h.0, ground arith, h.2)
pack_keys-IsWithin usable n find eta (k ∷ keys) p h =
    let ih =
      pack_keys-IsWithin usable (n + 1) find eta keys
        (visit usable k.fee (find k.addr k.nonce) eta p)
        (visit-IsWithin usable n k.fee (find k.addr k.nonce) eta p h) in
    (ih.0, ground arith, ih.2)

div_bound : (x k y : ℕ) → 1 ≤ k → x ≤ y * k → x / k ≤ y
div_bound x k y pos h =
    let below = div-lt_iff_lt-mul {k = k} {x = x} {y = y + 1} (omega arith) in
    omega (arith, below.1 (omega (arith, h, pos)))

percent_le : (a b : ℕ) → a ≤ b → (if b == 0 then 0 else saturating_mul_u64 a 100 / b) ≤ 100
percent_le a b h =
    if_either (λ n. n ≤ 100) (b == 0) (λ _. omega arith)
      (λ nonzero. div_bound (saturating_mul_u64 a 100) b 100 (ground arith) (omega (arith, h)))

module _ {F : Type 0} (ops : FloatOps F) (round : F → F) where
  -- Whatever the calls of the handle answer, the gas that a snapshot packs into the next block is at most the
  -- usable capacity, and its percentage of that at most 100; the transactions that it expects are at
  -- most the marketable ones; and it lists at most 256 rows, with a utilization of at most 100.
  pub capture-bounds :
      (a : Answers F) (telemetry : TelemetrySource) (elapsed : ℕ)
      → let s = capture ops round a telemetry elapsed in
        (s.gas_used_for_next_block ≤ s.usable_capacity)
        × (s.next_block_fill_percent ≤ 100)
        × (s.expected_txs ≤ s.marketable_count)
        × (length s.ranked_rows ≤ 256)
        × (s.marketable_utilization ≤ 100)
  unfolding capture
  capture-bounds a telemetry elapsed =
      let s = capture ops round a telemetry elapsed in
      let p =
        pack_keys-IsWithin s.usable_capacity 0 a.find_tx_by_addr_and_nonce
          a.estimated_blocks_to_confirm a.priority_queue empty_packing
          (omega arith, omega arith, omega arith) in
      (
        p.0,
        percent_le s.gas_used_for_next_block s.usable_capacity p.0,
        omega (arith, p.1),
        p.2,
        div_bound (min (length a.priority_queue) 1000 * 100) 1000 100 (omega arith) (omega arith),
      )
