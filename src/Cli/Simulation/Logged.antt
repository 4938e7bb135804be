-- ===== src/Cli/Simulation/Logged.antt =====
-- crates/mempooloracle/examples/cli_tool.rs: all that a simulated run sends.
use mathlib.Core.List.{append_assoc, append-nil}
use bulkmail.Prelude.{
  ℕ, zero, suc, ◌≡◌, ◌≤◌, ◌<◌, ◌+◌, ◌*◌, refl, sym, ap, ◌∙◌, List, [], ◌∷◌, ◌++◌, length, Bool,
  true, arith, u64_mod, add_u64, if_either,
}
use bulkmail.Mempool.Tracker.{MempoolEvent, pending_transaction, new_block}
use bulkmail.Transport.{Channel, send}
use bulkmail.Cli.Simulation.Rounds.{pendings, rounds, pendings-snoc, simulated_block-round_block}
use bulkmail.Cli.Simulation.{
  Phase, starting, sending, waiting, over, Simulation, start, simulated_tx, simulated_block,
  send_tx, send_block, go_on, next_phase, look, simulate_blockchain,
}

-- After `r` rounds and `k` transactions of the next.
pub record At (r k : ℕ) (s : Simulation) : Type 0 where
  pub sent : s.channel.sent ≡ rounds r ++ pendings (10 * r) k
  pub nonce : s.nonce ≡ 10 * r + k
  pub number : s.block_number ≡ r
  pub seen : s.telemetry.pending_seen ≡ s.nonce
  pub blocks : s.telemetry.block_count ≡ r
  pub alive : s.channel.receiver ≡ true

abbrev InPhase : Phase → ℕ → Type 0
InPhase starting k = k ≡ 0
InPhase (sending left) k = (left + k ≡ 10) × (1 ≤ left)
InPhase waiting k = k ≡ 10
InPhase over k = k ≤ 10

-- After `n` looks.
abbrev Stands : ℕ → Simulation → Type 0
Stands n s = (r : ℕ) × (k : ℕ) × At r k s × InPhase s.phase k × (r + (10 * r + k) ≤ n)

abbrev with_sent : MempoolEvent → Channel → Channel
with_sent e c = record c { sent = c.sent ++ e ∷ []; unread = c.unread ++ e ∷ [] }

send-alive : (e : MempoolEvent) (c : Channel) → c.receiver ≡ true → send e c ≡ (with_sent e c, true)
unfolding send
send-alive e c h = rw (send, h) refl

abbrev tx_sent : ℕ → Simulation → Simulation
tx_sent left s = record s {
  channel = with_sent (pending_transaction (simulated_tx s.nonce)) s.channel;
  telemetry = record s.telemetry { pending_seen = add_u64 s.telemetry.pending_seen 1 };
  nonce = add_u64 s.nonce 1;
  phase = next_phase left;
}

send_tx-alive :
    (left : ℕ) (s : Simulation) → s.channel.receiver ≡ true → send_tx left s ≡ tx_sent left s
unfolding send_tx
send_tx-alive left s h =
    rw (send_tx, send-alive (pending_transaction (simulated_tx s.nonce)) s.channel h) refl

next_phase-InPhase : (left k : ℕ) → suc left + k ≡ 10 → InPhase (next_phase left) (suc k)
next_phase-InPhase zero k h = omega (arith, h)
next_phase-InPhase (suc left) k h = (omega (arith, h), omega arith)

send_tx-Stands :
    (n left r k : ℕ) (s : Simulation)
    → n + 1 < u64_mod
    → At r k s
    → suc left + k ≡ 10
    → r + (10 * r + k) ≤ n
    → Stands (n + 1) (send_tx left s)
send_tx-Stands n left r k s small h left_over bound =
    let nonce = h.nonce in
    let seen = h.seen in
    let number = h.number in
    let next : add_u64 s.nonce 1 ≡ 10 * r + suc k = omega (arith, nonce, bound, small) in
    let sent : s.channel.sent ++ pending_transaction (simulated_tx s.nonce) ∷ []
        ≡ rounds r ++ pendings (10 * r) (suc k) =
      rw (h.sent, nonce)
        (append_assoc (rounds r) (pendings (10 * r) k)
            (pending_transaction (simulated_tx (10 * r + k)) ∷ [])
          ∙ ap (λ es. rounds r ++ es) (pendings-snoc (10 * r) k)) in
    rw (send_tx-alive left s h.alive) (
      r,
      suc k,
      record {
        sent = sent;
        nonce = next;
        number = number;
        seen = ap (λ x. add_u64 x 1) seen;
        blocks = h.blocks;
        alive = h.alive;
      },
      next_phase-InPhase left k left_over,
      omega (arith, bound),
    )

abbrev block_sent : Simulation → Simulation
block_sent s =
    let block = simulated_block s.nonce s.block_number in
    record s {
      channel = with_sent (new_block block) s.channel;
      telemetry = record s.telemetry {
        block_count = add_u64 s.block_number 1;
        last_block_txs = length block.included_txs;
        last_block_gas_used = 21000 * 5;
      };
      block_number = add_u64 s.block_number 1;
      phase = starting;
    }

send_block-alive : (s : Simulation) → s.channel.receiver ≡ true → send_block s ≡ block_sent s
unfolding send_block
send_block-alive s h =
    rw (send_block, send-alive (new_block (simulated_block s.nonce s.block_number)) s.channel h)
      refl

send_block-Stands :
    (n r : ℕ) (s : Simulation)
    → n + 1 < u64_mod
    → At r 10 s
    → r + (10 * r + 10) ≤ n
    → Stands (n + 1) (send_block s)
send_block-Stands n r s small h bound =
    let number = h.number in
    let next : add_u64 s.block_number 1 ≡ suc r = omega (arith, number, bound, small) in
    let nonce : s.nonce ≡ 10 * suc r + 0 = omega (arith, h.nonce) in
    let sent : s.channel.sent ++ new_block (simulated_block s.nonce s.block_number) ∷ []
        ≡ rounds (suc r) ++ pendings (10 * suc r) 0 =
      rw (h.sent, h.nonce, number, simulated_block-round_block r)
        (sym (append-nil (rounds (suc r)))) in
    rw (send_block-alive s h.alive) (
      suc r,
      0,
      record {
        sent = sent;
        nonce = nonce;
        number = next;
        seen = h.seen;
        blocks = next;
        alive = h.alive;
      },
      refl,
      omega (arith, bound),
    )

-- A new phase alone.
phase-At : (r k : ℕ) (s : Simulation) (p : Phase) → At r k s → At r k (record s { phase = p })
phase-At r k s p h = record {
  sent = h.sent;
  nonce = h.nonce;
  number = h.number;
  seen = h.seen;
  blocks = h.blocks;
  alive = h.alive;
}

InPhase-le : (p : Phase) (k : ℕ) → InPhase p k → k ≤ 10
InPhase-le starting k h = omega (arith, h)
InPhase-le (sending left) k h = omega (arith, h.0)
InPhase-le waiting k h = omega (arith, h)
InPhase-le over k h = h

go_on-Stands :
    (n r k : ℕ) (s : Simulation) (p : Phase)
    → n + 1 < u64_mod
    → At r k s
    → InPhase p k
    → s.phase ≡ p
    → r + (10 * r + k) ≤ n
    → Stands (n + 1) (go_on p s)
go_on-Stands n r k s starting small h i e bound =
    (r, k, phase-At r k s (sending 10) h, (omega (arith, i), omega arith), omega (arith, bound))
go_on-Stands n r k s (sending zero) small h i e bound = absurd (omega (arith, i.1))
go_on-Stands n r k s (sending (suc left)) small h i e bound =
    send_tx-Stands n left r k s small h i.0 bound
go_on-Stands n r k s waiting small h i e bound =
    let ten : k ≡ 10 = i in
    let h' : At r 10 s = rw (← ten) h in
    send_block-Stands n r s small h' (omega (arith, bound, ten))
go_on-Stands n r k s over small h i e bound = (r, k, h, rw e i, omega (arith, bound))

look-Stands :
    (n : ℕ) (stop : Bool) (s : Simulation)
    → n + 1 < u64_mod
    → Stands n s
    → Stands (n + 1) (look stop s)
unfolding look
look-Stands n stop s small (r, k, h, i, bound) =
    if_either (Stands (n + 1)) stop
      (λ _. (r, k, phase-At r k s over h, InPhase-le s.phase k i, omega (arith, bound)))
      (λ _. go_on-Stands n r k s s.phase small h i refl bound)

simulate_blockchain-Stands :
    (n : ℕ) (stops : List Bool) (s : Simulation)
    → n + length stops < u64_mod
    → Stands n s
    → Stands (n + length stops) (simulate_blockchain stops s)
unfolding simulate_blockchain
simulate_blockchain-Stands n [] s small h = let e : n + 0 ≡ n = omega arith in rw e h
simulate_blockchain-Stands n (stop ∷ stops) s small h =
    let e : n + suc (length stops) ≡ n + 1 + length stops = omega arith in
    rw e (
      simulate_blockchain-Stands (n + 1) stops (look stop s) (omega (arith, small))
        (look-Stands n stop s (omega (arith, small)) h))

-- Whenever the stop flag is set, as long as the tracker receives and fewer than 2^64 looks at the flag
-- are taken: what the simulated chain sent is whole rounds, each of ten pending transactions with the next
-- nonces and a block of the first five of them, and at most ten transactions of one more round;
-- and its counters are the numbers of transactions and of blocks that it sent.
pub simulate_blockchain-rounds :
    (stops : List Bool)
    → length stops < u64_mod
    → let s = simulate_blockchain stops start in
      (r : ℕ) × (k : ℕ) × (k ≤ 10)
      × (s.channel.sent ≡ rounds r ++ pendings (10 * r) k)
      × (s.telemetry.pending_seen ≡ 10 * r + k)
      × (s.telemetry.block_count ≡ r)
simulate_blockchain-rounds stops small =
    let s = simulate_blockchain stops start in
    let begun : At 0 0 start = record {
      sent = refl;
      nonce = refl;
      number = refl;
      seen = refl;
      blocks = refl;
      alive = refl;
    } in
    let (r, k, h, i, bound) =
      simulate_blockchain-Stands 0 stops start (omega (arith, small))
        (0, 0, begun, refl, omega arith) in
    (r, k, InPhase-le s.phase k i, h.sent, h.seen ∙ h.nonce, h.blocks)
