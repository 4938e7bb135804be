-- ===== src/Adapter/Ethereum/Ladder.antt =====
-- crates/bulkmail/src/adapter/ethereum.rs: the transactions that are broadcast for a message, and when
-- a drop leads to a replacement.
use Prim.Native.String.{String}
use bulkmail.Prelude.{ℕ, ◌≤◌, ◌<◌, ◌≡◌, refl, [], ◌∷◌, ◌++◌, arith, Result, ok, err}
use bulkmail.Error.{ChainError}
use bulkmail.Message.{Message, can_retry}
use bulkmail.NonceManager.{NonceState}
use bulkmail.Chain.{ChainClient, Watcher}
use bulkmail.Adapter.{resubmit}
use bulkmail.Adapter.Ethereum.{
  EthFeeParams, EthPending, bump_fee, transaction, handle_dropped, send_transaction,
  after_broadcast, after_register, after_wait,
}
use bulkmail.Adapter.Ethereum.Logged.{Log, logged, logged_watcher, logged_answer}

-- The transactions of one message at one nonce, each with the fee of the one before it bumped.
abbrev pub Ladder : ℕ → Message → ℕ → EthFeeParams → Log → Type 0
Ladder id msg nonce fee [] = Unit {0}
Ladder id msg nonce fee (tx ∷ txs) =
    (tx ≡ transaction id msg fee nonce) × Ladder id msg nonce (bump_fee fee) txs

-- While the retry counter allows a further attempt, and the replacements do not outnumber the
-- retries, a dropped transaction is always replaced at its nonce with a bumped fee.
pub handle_dropped-resubmit :
    (p : EthPending) (nonces : NonceState)
    → p.msg.retry_count < 3
    → p.replacement_count ≤ p.msg.retry_count
    → handle_dropped p nonces ≡ (nonces, resubmit (bump_fee p.fee) p.replay_token)
unfolding handle_dropped can_retry
handle_dropped-resubmit p nonces h k = ground arith

-- The retry counter is no part of the transaction.
pub Ladder-retry :
    (id : ℕ) (msg : Message) (k nonce : ℕ) (fee : EthFeeParams) (txs : Log)
    → Ladder id (record msg { retry_count = k }) nonce fee txs
    → Ladder id msg nonce fee txs
unfolding transaction
Ladder-retry id msg k nonce fee [] h = tt
Ladder-retry id msg k nonce fee (tx ∷ txs) h =
    (h.0, Ladder-retry id msg k nonce (bump_fee fee) txs h.1)

module _ {E : Type 0} (chain : ChainClient E) where
  after_wait-log :
      (tx_hash : ℕ) (r : Result String (Unit {0})) (v : E × Log)
      → (after_wait (logged chain) tx_hash r v).1.1 ≡ v.1
  unfolding after_wait
  after_wait-log tx_hash (ok _) v = refl
  after_wait-log tx_hash (err _) v = refl

  after_register-log :
      (w : Watcher E) (r : Result String (Unit {0})) (v : E × Log)
      → (after_register (logged chain) (logged_watcher w) r v).1.1 ≡ v.1
  unfolding after_register
  after_register-log w (ok _) v = after_wait-log w.tx_hash _ _
  after_register-log w (err _) v = refl

  after_broadcast-log :
      (r : Result ChainError (Watcher E)) (v : E × Log)
      → (after_broadcast (logged chain) (logged_answer r) v).1.1 ≡ v.1
  unfolding after_broadcast
  after_broadcast-log (ok w) v = after_register-log w _ _
  after_broadcast-log (err _) v = refl

  -- A call of `send_transaction` broadcasts one transaction, also where it then fails.
  pub send_transaction-log :
      (msg : Message) (fee : EthFeeParams) (nonce : ℕ) (v : E × Log)
      → (send_transaction (logged chain) msg fee nonce v).1.1
        ≡ v.1 ++ transaction chain.id msg fee nonce ∷ []
  unfolding send_transaction
  send_transaction-log msg fee nonce v =
      let tx = transaction chain.id msg fee nonce in
      let (r, e) = chain.send_transaction tx v.0 in after_broadcast-log r (e, v.1 ++ tx ∷ [])
