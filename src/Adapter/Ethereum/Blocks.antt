-- ===== src/Adapter/Ethereum/Blocks.antt =====
-- crates/bulkmail/src/chain.rs with crates/bulkmail/src/adapter/ethereum.rs: a block subscription, from
-- the provider through both forwarding tasks to the sender's stream.
use Prim.Native.String.{String}
use bulkmail.Prelude.{
  length-map, ℕ, ◌≡◌, refl, sym, ap, ◌∙◌, List, [], ◌∷◌, length, map, Result, ok, err, arith,
}
use bulkmail.Error.{Error, RpcError, rpc, chain_error}
use bulkmail.Chain.{
  Chain, Header, forward as forward_headers, chain_client, subscribe_new_blocks as subscribe_chain,
}
use bulkmail.Chain.Blocks.{until_err, forward-until_err, take-until_err}
use bulkmail.Adapter.{forward}
use bulkmail.Adapter.Ethereum.{subscribe_new_blocks}

-- A stream whose receiver is kept loses nothing.
forward_all : (numbers : List ℕ) → forward (length numbers) numbers ≡ numbers
unfolding forward
forward_all [] = refl
forward_all (n ∷ numbers) = ap (λ ns. n ∷ ns) (forward_all numbers)

-- What a subscription gives the sender.
abbrev pub blocks_of : Result RpcError (List (Result String Header)) → Result Error (List ℕ)
blocks_of (ok answers) = ok (map (λ (h : Header). h.number) (until_err answers))
blocks_of (err why) = err (chain_error (rpc why))

passed_on :
    (answers : List (Result String Header))
    → let headers = forward_headers (length answers) answers in
      forward (length headers) (map (λ (h : Header). h.number) headers)
      ≡ map (λ (h : Header). h.number) (until_err answers)
passed_on answers =
    let headers = forward_headers (length answers) answers in
    let numbers = map (λ (h : Header). h.number) headers in
    ap (λ n. forward n numbers) (sym (length-map (λ (h : Header). h.number) headers))
    ∙ forward_all numbers
    ∙ ap (map (λ (h : Header). h.number)) (
        forward-until_err (length answers) answers
        ∙ take-until_err (length answers) answers (omega arith))

module _ {E Envelope : Type 0} (c : Chain E Envelope) where
  -- Whatever the provider answers: the stream of the Ethereum client over a chain, while the sender
  -- keeps it, has the numbers of the headers that the subscription yields before its first failure,
  -- all of them, in their order, and then ends; a subscription that fails is that error.
  pub subscribe_new_blocks-blocks_of :
      (e : E)
      → (subscribe_new_blocks (chain_client c) e).0 ≡ blocks_of (c.provider.subscribe_blocks e).0
  unfolding subscribe_new_blocks chain_client subscribe_chain
  subscribe_new_blocks-blocks_of e = go (c.provider.subscribe_blocks e).0 refl
    where
      go :
          (r : Result RpcError (List (Result String Header)))
          → (c.provider.subscribe_blocks e).0 ≡ r
          → (subscribe_new_blocks (chain_client c) e).0 ≡ blocks_of r
      go (ok answers) h = rw (h, subscribe_new_blocks) (ap (λ ns. ok ns) (passed_on answers))
      go (err why) h = rw (h, subscribe_new_blocks) refl
