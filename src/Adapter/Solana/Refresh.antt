-- ===== src/Adapter/Solana/Refresh.antt =====
-- crates/bulkmail/src/adapter/solana.rs: a blockhash that is handed out after a synchronisation has
-- enough blocks left.
use Prim.Native.String.{String}
use bulkmail.Prelude.{
  true, false, ℕ, ◌+◌, ◌<◌, ◌≡◌, refl, ◌∙◌, sym, ap, Bool-cases, inl, inr, leb, Result, ok, err,
  arith, u64_mod, add_u64, leb→lt,
}
use bulkmail.Adapter.Solana.{
  RpcClient, BlockhashState, blockhash_refresh_margin, refreshed, sync_at, sync,
}

-- An answer for the latest blockhash, if it is one, is valid for more than the margin past `height`.
abbrev pub Lasts : ℕ → Result String (ℕ × ℕ) → Type 0
Lasts height (ok (hash, valid)) = height + blockhash_refresh_margin < valid
Lasts height (err why) = Unit {0}

refreshed-valid :
    (s : BlockhashState) (height : ℕ) (answer : Result String (ℕ × ℕ))
    → Lasts height answer
    → (refreshed s answer).1 ≡ ok tt
    → height + blockhash_refresh_margin < (refreshed s answer).0.last_valid_block_height
unfolding refreshed
refreshed-valid s height (ok (hash, valid)) l d = l
refreshed-valid s height (err why) l d = cc

module _ {E : Type 0} (rpc : RpcClient E) where
  sync_at-refreshed :
      (s : BlockhashState) (height : ℕ) (e : E)
      → leb s.last_valid_block_height (add_u64 height blockhash_refresh_margin) ≡ true
      → (sync_at rpc s (ok height) e).0 ≡ refreshed s (rpc.get_latest_blockhash e).0
  unfolding sync_at
  sync_at-refreshed s height e old = rw old refl

  sync_at-kept :
      (s : BlockhashState) (height : ℕ) (e : E)
      → leb s.last_valid_block_height (add_u64 height blockhash_refresh_margin) ≡ false
      → (sync_at rpc s (ok height) e).0 ≡ (s, ok tt)
  unfolding sync_at
  sync_at-kept s height e valid = rw valid refl

  sync_at-valid :
      (s : BlockhashState) (height : ℕ) (e : E)
      → height + blockhash_refresh_margin < u64_mod
      → Lasts height (rpc.get_latest_blockhash e).0
      → (sync_at rpc s (ok height) e).0.1 ≡ ok tt
      → height + blockhash_refresh_margin
        < (sync_at rpc s (ok height) e).0.0.last_valid_block_height
  sync_at-valid s height e small l d =
      elim (Bool-cases (leb s.last_valid_block_height (add_u64 height blockhash_refresh_margin))) [
        | inl old ↦
            let answer = rpc.get_latest_blockhash e in
            let to_answer = sync_at-refreshed s height e old in
            rw to_answer (refreshed-valid s height answer.0 l (sym (ap (λ r. r.1) to_answer) ∙ d))
        | inr valid ↦ rw (sync_at-kept s height e valid) (omega (arith, leb→lt _ _ valid))
      ]

  -- If the chain answers with a height below the last 30 of 64 bits, and its latest blockhash, if it
  -- answers with one, is valid for more than 30 blocks past that height, then a synchronisation that
  -- succeeds leaves a blockhash that is so too: a cached one is kept only while it is.
  pub sync-valid :
      (s : BlockhashState) (e : E) (height : ℕ)
      → (rpc.get_block_height e).0 ≡ ok height
      → height + blockhash_refresh_margin < u64_mod
      → Lasts height (rpc.get_latest_blockhash (rpc.get_block_height e).1).0
      → (sync rpc s e).0.1 ≡ ok tt
      → height + blockhash_refresh_margin < (sync rpc s e).0.0.last_valid_block_height
  unfolding sync
  sync-valid s e height h small lasts done =
      rw (h, sync)
        (sync_at-valid s height (rpc.get_block_height e).1 small lasts
          (ap (λ r. (sync_at rpc s r (rpc.get_block_height e).1).0.1) (sym h) ∙ done))
