-- ===== src/Tests/Services.antt =====
-- crates/mempooloracle/src/runtime.rs and crates/bulkmail/src/adapter/solana.rs at concrete inputs.
use bulkmail.Error.{Error}
use bulkmail.Prelude.{ℕ, ◌+◌, ◌<◌, ◌≡◌, Result, refl, [], ◌∷◌, none, ok, err, List, arith}
use bulkmail.Error.{other_rpc}
use bulkmail.Chain.{Provider, Library, Chain, chain_client, new as new_chain}
use bulkmail.Adapter.Ethereum.{subscribe_new_blocks}
use bulkmail.Adapter.Ethereum.Blocks.{subscribe_new_blocks-blocks_of}
use bulkmail.Runtime.{Event, pending, block, import_}
use bulkmail.Adapter.Solana.{
  RpcClient, BlockhashState, blockhash_refresh_margin, sync, sync_at, refreshed,
}
use bulkmail.Adapter.Solana.Refresh.{sync-valid}

abbrev calls : List Event
calls = pending ∷ block 3 63000 ∷ pending ∷ import_ ∷ []

abbrev node : RpcClient ℕ
node = record {
  get_slot = λ e. (ok e, e);
  get_block_height = λ e. (ok 100, e);
  get_signature_status = λ id e. (ok none, e);
  get_latest_blockhash = λ e. (ok (42, 250), e);
}

abbrev stale : BlockhashState
stale = record { hash = 41; last_valid_block_height = 110 }

abbrev synced : (BlockhashState × Result Error (Unit {0})) × ℕ
synced = sync node stale 0

sync_answers : synced.0.1 ≡ ok tt
unfolding sync sync_at refreshed
sync_answers = refl

sync-valid_example : 100 + blockhash_refresh_margin < synced.0.0.last_valid_block_height
sync-valid_example = sync-valid node stale 0 100 refl (omega arith) (omega arith) sync_answers

-- A provider with a subscription that yields two headers, fails, and yields another.
abbrev provider : Provider ℕ ℕ
provider = record {
  subscribe_blocks = λ e. (
    ok (
        ok (record { number = 5 })
        ∷ ok (record { number = 6 })
        ∷ err "lagged"
        ∷ ok (record { number = 9 })
        ∷ []),
    e,
  );
  block_number = λ e. (ok 6, e);
  transaction_count = λ a e. (ok 0, e);
  transaction_receipt = λ h e. (ok none, e);
  send_tx_envelope = λ x e. (err (other_rpc "refused"), e);
}

abbrev client_library : Library ℕ ℕ
client_library = record {
  connect_ws = λ url e. (ok provider, e);
  wallet_of = λ key. record { sign_transaction = λ tx e. (ok 1, e) };
}

abbrev chain : Chain ℕ ℕ
chain = record { chain_id = 1; wallet = client_library.wallet_of 7; provider = provider }

chain_connected : (new_chain client_library "ws://localhost" 7 1 0).0 ≡ ok chain
unfolding new_chain
chain_connected = refl

subscribe_new_blocks-blocks_of_example :
    (subscribe_new_blocks (chain_client chain) 0).0 ≡ ok (5 ∷ 6 ∷ [])
subscribe_new_blocks-blocks_of_example = subscribe_new_blocks-blocks_of chain 0
