-- ===== src/Adapter/Ethereum/Replace.antt =====
-- crates/bulkmail/src/adapter/ethereum.rs under crates/bulkmail/src/sender.rs: what one message
-- does to the chain, the nonces and the queue, while no other task uses the nonces.
use mathlib.Core.List.{append-nil}
use bulkmail.Prelude.{
  ℕ, ◌≡◌, refl, ◌⊎◌, inl, inr, [], ◌++◌, none, some, arith, Bool-cases, ok, ap, sym, ◌∙◌,
}
use bulkmail.Message.{Message, is_expired, max_retries, effective_priority}
use bulkmail.NonceManager.{mark_nonce_available, update_current_nonce, get_next_available_nonce}
use bulkmail.NonceManager.Next.{HasRoom, mark_nonce_available-get_next_available_nonce}
use bulkmail.GasPrice.{get_gas_price, get_base_fee, calculate_priority_fee}
use bulkmail.Chain.{ChainClient}
use bulkmail.Clock.{TimeSource, now_ms}
use bulkmail.PriorityQueue.{MessageHeap}
use bulkmail.Adapter.Ethereum.{EthWorld, EthFeeParams, eth, get_fee_params}
use bulkmail.Adapter.Ethereum.Logged.{Log, logged}
use bulkmail.Sender.{process_message, after_fee}
use bulkmail.Adapter.Ethereum.Ladder.{Ladder}
use bulkmail.Adapter.Ethereum.Watched

module _ {E : Type 0} (chain : ChainClient E) (address : ℕ) (heap : MessageHeap)
    (time : TimeSource E) where
  abbrev T : TimeSource (EthWorld (E × Log))
  T = Watched.T chain address heap time

  abbrev S : Type 0
  S = Watched.S chain address heap time

  abbrev O : Type 0
  O = Watched.O chain address heap time

  -- What processing a message of that fee did.
  abbrev pub Handled : Message → EthFeeParams → S → O → Type 0
  Handled msg fee s none = ⊥
  Handled msg fee s (some (r, s')) =
      let (reserved, nonce) = get_next_available_nonce s.world.nonces in
      ((txs : Log) × (s'.world.env.1 ≡ s.world.env.1 ++ txs) × Ladder chain.id msg nonce fee txs)
      × (s'.queue ≡ s.queue)
      × ((s'.world.nonces ≡ s.world.nonces)
          ⊎ ((r ≡ ok tt) × (s'.world.nonces ≡ update_current_nonce reserved nonce)))

  Handled-reserved :
      (msg : Message) (fee : EthFeeParams) (s s₁ : S) (o : O)
      → HasRoom s.world.nonces
      → s₁.world.env.1 ≡ s.world.env.1
      → s₁.queue ≡ s.queue
      → s₁.world.nonces ≡ (get_next_available_nonce s.world.nonces).0
      → Watched.Ends chain address heap time msg
          (get_next_available_nonce s.world.nonces).1
          fee
          s₁
          o
      → Handled msg fee s o
  Handled-reserved msg fee s s₁ none h l q n x = absurd x
  Handled-reserved msg fee s s₁ (some (r, s')) h l q n ((txs, l', d), q', inl given) = (
    (txs, l' ∙ ap (λ k. k ++ txs) l, d),
    q' ∙ q,
    inl (
        given
        ∙ ap (λ k. mark_nonce_available k (get_next_available_nonce s.world.nonces).1) n
        ∙ mark_nonce_available-get_next_available_nonce s.world.nonces h),
  )
  Handled-reserved msg fee s s₁ (some (r, s')) h l q n ((txs, l', d), q', inr (e, u)) = (
    (txs, l' ∙ ap (λ k. k ++ txs) l, d),
    q' ∙ q,
    inr (e, u ∙ ap (λ k. update_current_nonce k (get_next_available_nonce s.world.nonces).1) n),
  )

  -- While the nonces have room, and no other task acts, processing a message on Ethereum always
  -- returns. All its transactions carry the nonce that was
  -- assigned, the first at the fee for its priority and each later one at the fee before it bumped
  -- by 20%. The queue is as before: a message is never put back. Unless the processing succeeded
  -- and confirmed the nonce, the nonces are as if the message had never been seen.
  pub process_message-Handled :
      (msg : Message) (s : S)
      → HasRoom s.world.nonces
      → (fee : EthFeeParams) × (get_fee_params s.world.gas
            (effective_priority msg (now_ms T s.world).0)
          ≡ ok fee)
        × Handled msg fee s (process_message (eth (logged chain) address) heap T max_retries msg s)
  unfolding process_message now_ms get_fee_params after_fee get_gas_price
  process_message-Handled msg s h =
      let (now, w) = now_ms T s.world in
      let (reserved, nonce) = get_next_available_nonce s.world.nonces in
      let fee : EthFeeParams = record {
        base_fee = get_base_fee s.world.gas;
        priority_fee = calculate_priority_fee s.world.gas (effective_priority msg now);
      } in
      (
        fee,
        refl,
        elim (Bool-cases (is_expired msg now)) [
          | inl late ↦ rw late (([], sym (append-nil _), tt), refl, inl refl)
          | inr live ↦ rw live (
              Handled-reserved msg fee s (record s { world = record w { nonces = reserved } }) _ h
                refl refl refl
                (Watched.send_and_watch-Ends chain address heap time max_retries msg fee nonce 0
                  (record s { world = record w { nonces = reserved } }) (omega arith)
                  (omega arith)))
        ],
      )
