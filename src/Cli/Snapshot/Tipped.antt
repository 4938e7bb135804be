-- ===== src/Cli/Snapshot/Tipped.antt =====
-- crates/mempooloracle/examples/cli_tool.rs over crates/mempooloracle/src/lib.rs: the least tip of a
-- snapshot of a tracker.
use bulkmail.Prelude.{
  ℕ, ◌≡◌, ◌≤◌, ◌<◌, List, [], ◌∷◌, Option, none, some, All, length, arith, u64_mod,
}
use bulkmail.Mempool.Index.{Key, Keys}
use bulkmail.Mempool.Queues.{PendingTx}
use bulkmail.Mempool.{TrackerConfig}
use bulkmail.Mempool.Block.{FloatOps}
use bulkmail.Mempool.Index.Sorted.{FeesDescend, NotAbove, Sorted-FeesDescend}
use bulkmail.Mempool.Tracker.{MempoolEvent, run, from_channel}
use bulkmail.Mempool.Tracker.Ordered.{reached-IsOrdered}
use bulkmail.Cli.Snapshot.{TelemetrySource, capture, quiet}
use bulkmail.Cli.Snapshot.Packed.{
  Listed, list_found, listed, Deals, NoWrap, TooBig, total_gas, last_fee, capture-Packs,
}

-- By the fee of the key, which need not be what the transaction pays.
abbrev KeyedUpTo : ℕ → Listed → Type 0
KeyedUpTo n e = e.0 ≤ n

abbrev pub KeyedFrom : ℕ → Listed → Type 0
KeyedFrom n e = n ≤ e.0

abbrev Descends : List Listed → Type 0
Descends [] = Unit {0}
Descends (e ∷ es) = All (KeyedUpTo e.0) es × Descends es

list_found-KeyedUpTo :
    (n fee : ℕ) (found : Option PendingTx) (es : List Listed)
    → fee ≤ n
    → All (KeyedUpTo n) es
    → All (KeyedUpTo n) (list_found fee found es)
list_found-KeyedUpTo n fee none es h a = a
list_found-KeyedUpTo n fee (some tx) es h a = (h, a)

listed-KeyedUpTo :
    (find : ℕ → ℕ → Option PendingTx) (k : Key) (keys : Keys)
    → All (NotAbove k) keys
    → All (KeyedUpTo k.fee) (listed find keys)
unfolding listed
listed-KeyedUpTo find k [] a = tt
listed-KeyedUpTo find k (j ∷ keys) a =
    list_found-KeyedUpTo k.fee j.fee (find j.addr j.nonce) (listed find keys) a.0
      (listed-KeyedUpTo find k keys a.1)

list_found-Descends :
    (fee : ℕ) (found : Option PendingTx) (es : List Listed)
    → All (KeyedUpTo fee) es
    → Descends es
    → Descends (list_found fee found es)
list_found-Descends fee none es a d = d
list_found-Descends fee (some tx) es a d = (a, d)

listed-Descends :
    (find : ℕ → ℕ → Option PendingTx) (keys : Keys) → FeesDescend keys → Descends (listed find keys)
unfolding listed
listed-Descends find [] d = tt
listed-Descends find (k ∷ keys) d =
    list_found-Descends k.fee (find k.addr k.nonce) (listed find keys)
      (listed-KeyedUpTo find k keys d.0) (listed-Descends find keys d.1)

Deals-All :
    (P : Listed → Type 0) {es taken left : List Listed}
    → Deals es taken left
    → All P es
    → All P taken
Deals-All P Deals.done a = tt
Deals-All P (Deals.take deal) a = (a.0, Deals-All P deal a.1)
Deals-All P (Deals.leave deal) a = Deals-All P deal a.1

Deals-Descends : {es taken left : List Listed} → Deals es taken left → Descends es → Descends taken
Deals-Descends Deals.done d = tt
Deals-Descends (Deals.take {e} deal) d =
    (Deals-All (KeyedUpTo e.0) deal d.0, Deals-Descends deal d.1)
Deals-Descends (Deals.leave deal) d = Deals-Descends deal d.1

last_fee_le : (n : ℕ) (es : List Listed) → All (KeyedUpTo n) es → Descends es → last_fee n es ≤ n
last_fee_le n [] a d = omega arith
last_fee_le n (e ∷ es) a d = omega (arith, last_fee_le e.0 es d.0 d.1, a.0)

last_fee-KeyedFrom : (n : ℕ) (es : List Listed) → Descends es → All (KeyedFrom (last_fee n es)) es
last_fee-KeyedFrom n [] d = tt
last_fee-KeyedFrom n (e ∷ es) d = (last_fee_le e.0 es d.0 d.1, last_fee-KeyedFrom e.0 es d.1)

module _ {F : Type 0} (ops : FloatOps F) (round : F → F) where
  -- In every state that the tracker reaches, from any initial transactions and by any events, with no event
  -- while the snapshot is taken, no addition of gas that can wrap and fewer than 2^64 keys: the transactions
  -- found for the keys are dealt, in order, into those packed and those left out; the least tip is the fee
  -- of the key under which the last packed one was found, and no packed one was found under a key of a lower
  -- fee (what the transaction itself pays may differ from the fee of its key); the packed ones' gas is the
  -- packed gas, and nothing that was left out fits beside it.
  pub capture-least_tip :
      (initial_txs : List PendingTx) (config : TrackerConfig F) (events : List MempoolEvent)
      (telemetry : TelemetrySource) (elapsed : ℕ)
      → let a = quiet ops (run ops events (from_channel initial_txs config)) in
        let s = capture ops round a telemetry elapsed in
        let found = listed a.find_tx_by_addr_and_nonce a.priority_queue in
        All (NoWrap s.usable_capacity) found
        → length a.priority_queue < u64_mod
        → (taken : List Listed) × (left : List Listed) × Deals found taken left
          × (s.min_tip ≡ last_fee 0 taken)
          × All (KeyedFrom s.min_tip) taken
          × (s.gas_used_for_next_block ≡ total_gas taken)
          × All (TooBig s.usable_capacity s.gas_used_for_next_block) left
  capture-least_tip initial_txs config events telemetry elapsed h few =
      let a = quiet ops (run ops events (from_channel initial_txs config)) in
      let (taken, left, deal, gas, txs, tip, big) =
        capture-Packs ops round a telemetry elapsed h few in
      let sorted = Deals-Descends deal (
        listed-Descends a.find_tx_by_addr_and_nonce a.priority_queue
          (Sorted-FeesDescend _ (reached-IsOrdered ops initial_txs config events))) in
      (taken, left, deal, tip, rw tip (last_fee-KeyedFrom 0 taken sorted), gas, big)
