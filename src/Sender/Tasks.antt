-- ===== src/Sender/Tasks.antt =====
-- crates/bulkmail/src/sender.rs with crates/bulkmail/src/adapter/ethereum.rs: the tasks that send
-- messages at the same time. Each shares the nonces with the others and holds one of them, from
-- the call of `next` to the end of its loop. A step is what a task, or the main loop, does between
-- two awaits; the order of the steps is arbitrary.
pub mod Held
pub mod Apart
use bulkmail.Prelude.{
  ℕ, ◌+◌, ◌-◌, ◌%◌, ◌<◌, ◌≡◌, if◌then◌else◌, List, [], ◌∷◌, ◌++◌, Result, u32_mod, length,
}
use bulkmail.Error.{ChainError}
use bulkmail.Message.{Message, increment_retry}
use bulkmail.NonceManager.{
  NonceState, get_next_available_nonce, mark_nonce_available, update_current_nonce, sync_nonce,
}
use bulkmail.NonceManager.Next.{HasRoom}
use bulkmail.Adapter.{RetryDecision, resubmit, requeue, abandon}
use bulkmail.Adapter.Ethereum.{EthFeeParams, EthPending, handle_dropped}
use bulkmail.Sender.{max_in_flight_transactions}

-- A task in its send loop: the variables of the loop.
pub record Task : Type 0 where
  pub msg : Message
  pub fee : EthFeeParams
  pub nonce : ℕ
  pub replacement_count : ℕ

pub record System : Type 0 where
  pub nonces : NonceState
  pub tasks : List Task
  pub permits : ℕ

-- The sender before its first message.
abbrev pub start : NonceState → System
start nonces = record { nonces = nonces; tasks = []; permits = max_in_flight_transactions }

-- A task that ends drops its permit.
abbrev pub ended : System → NonceState → List Task → System
ended s nonces rest = record { nonces = nonces; tasks = rest; permits = s.permits + 1 }

-- What the retry strategy decides for a dropped transaction of the task `t`, whose message has
-- its retry counted: `xs` and `ys` are the other tasks.
unfoldable pub decided :
    System
    → List Task
    → Task
    → List Task
    → Message
    → NonceState × RetryDecision EthFeeParams ℕ
    → System
decided s xs t ys msg (nonces, resubmit fee nonce) = record s {
  nonces = nonces;
  tasks =
      xs
      ++ record {
        msg = msg;
        fee = fee;
        nonce = nonce;
        replacement_count = (t.replacement_count + 1) % u32_mod;
      }
        ∷ ys;
}
decided s xs t ys msg (nonces, requeue) = ended s (mark_nonce_available nonces t.nonce) (xs ++ ys)
decided s xs t ys msg (nonces, abandon) = ended s (mark_nonce_available nonces t.nonce) (xs ++ ys)

-- The pending transaction of a task, as it was sent.
abbrev pub pending_of : Task → ℕ → ℕ → EthPending
pending_of t tx_id created_at = record {
  msg = t.msg;
  tx_id = tx_id;
  fee = t.fee;
  replay_token = t.nonce;
  created_at = created_at;
  replacement_count = t.replacement_count;
}

-- A transaction `tx_id` of the task `t` that was dropped or reverted.
unfoldable pub drop_task : System → List Task → Task → List Task → ℕ → ℕ → System
unfolding decided
drop_task s xs t ys tx_id created_at =
    let (msg, more) = increment_retry t.msg in
    if more
    then decided s xs t ys msg (handle_dropped (pending_of t tx_id created_at) s.nonces)
    else ended s (mark_nonce_available s.nonces t.nonce) (xs ++ ys)

pub data Step (s s' : System) : Type 0 where
  -- A permit is acquired, a message popped, and a nonce taken for it.
  take :
      (msg : Message) (fee : EthFeeParams)
      → 0 < s.permits
      → HasRoom s.nonces
      → s' ≡ record {
        nonces = (get_next_available_nonce s.nonces).0;
        tasks =
            record {
              msg = msg;
              fee = fee;
              nonce = (get_next_available_nonce s.nonces).1;
              replacement_count = 0;
            }
            ∷ s.tasks;
        permits = s.permits - 1;
      }
      → Step s s'
  -- The message has expired, or the client failed: the nonce is given back.
  fail :
      (xs : List Task) (t : Task) (ys : List Task)
      → s.tasks ≡ xs ++ t ∷ ys
      → s' ≡ ended s (mark_nonce_available s.nonces t.nonce) (xs ++ ys)
      → Step s s'
  -- The transaction is confirmed.
  confirm :
      (xs : List Task) (t : Task) (ys : List Task)
      → s.tasks ≡ xs ++ t ∷ ys
      → s' ≡ ended s (update_current_nonce s.nonces t.nonce) (xs ++ ys)
      → Step s s'
  -- The transaction is dropped or reverted.
  drop :
      (xs : List Task) (t : Task) (ys : List Task) (tx_id created_at : ℕ)
      → s.tasks ≡ xs ++ t ∷ ys
      → s' ≡ drop_task s xs t ys tx_id created_at
      → Step s s'
  -- A new block: the nonces are synchronised with the chain.
  sync :
      (answer : Result ChainError ℕ)
      → s' ≡ record s { nonces = (sync_nonce s.nonces answer).0 }
      → Step s s'

pub data Reach (s : System) : System → Type 0 where
  here : Reach s s
  next : {t u : System} → Reach s t → Step t u → Reach s u
