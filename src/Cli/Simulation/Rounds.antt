-- ===== src/Cli/Simulation/Rounds.antt =====
-- crates/mempooloracle/examples/cli_tool.rs: the rounds of the simulated chain, written out.
use bulkmail.Prelude.{ℕ, zero, suc, ◌≡◌, ◌+◌, ◌-◌, ◌*◌, ◌%◌, refl, ap, List, [], ◌∷◌, ◌++◌, arith}
use bulkmail.Mempool.{BlockUpdate}
use bulkmail.Mempool.Tracker.{MempoolEvent, pending_transaction, new_block}
use bulkmail.Cli.Simulation.{simulated_tx, simulated_txs, simulated_block}

-- `k` transactions from a nonce on.
abbrev pub pendings : ℕ → ℕ → List MempoolEvent
pendings nonce zero = []
pendings nonce (suc k) = pending_transaction (simulated_tx nonce) ∷ pendings (nonce + 1) k

-- The block of a round: the first five of its transactions.
abbrev pub round_block : ℕ → BlockUpdate
round_block r = record {
  included_txs = simulated_txs (10 * r) 5;
  new_base_fee = 10 + r % 5;
  gas_used = 105000;
  gas_limit = 30_000_000;
}

-- What `r` rounds send, each ten transactions and a block.
abbrev pub rounds : ℕ → List MempoolEvent
rounds zero = []
rounds (suc r) = (rounds r ++ pendings (10 * r) 10) ++ new_block (round_block r) ∷ []

pub simulated_block-round_block : (r : ℕ) → simulated_block (10 * r + 10) r ≡ round_block r
unfolding simulated_block
simulated_block-round_block r =
    let e : 10 * r + 10 - 10 ≡ 10 * r = omega arith in rw (simulated_block, e) refl

pub pendings-snoc :
    (nonce k : ℕ)
    → pendings nonce k ++ pending_transaction (simulated_tx (nonce + k)) ∷ []
      ≡ pendings nonce (suc k)
pendings-snoc nonce zero = let e : nonce + 0 ≡ nonce = omega arith in rw e refl
pendings-snoc nonce (suc k) =
    let e : nonce + suc k ≡ nonce + 1 + k = omega arith in
    rw e (ap (λ es. pending_transaction (simulated_tx nonce) ∷ es) (pendings-snoc (nonce + 1) k))
