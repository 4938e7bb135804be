-- ===== src/Sender/Tasks/Apart.antt =====
-- crates/bulkmail/src/sender.rs with crates/bulkmail/src/nonce_manager.rs: no two tasks ever hold
-- the same nonce.
use bulkmail.Prelude.{
  ℕ, ◌+◌, ◌-◌, ◌≤◌, ◌<◌, ◌≡◌, refl, ap, subst, inl, inr, List, [], ◌∷◌, ◌++◌, true, arith, All,
  All-split, All-insert, All-mono, All-both, length, Result, ok, err, ltb, ltb→lt, min, Bool-cases,
}
use bulkmail.Error.{ChainError}
use bulkmail.Message.{Message, increment_retry, can_retry}
use bulkmail.NonceManager.{
  NonceState, get_next_available_nonce, mark_nonce_available, update_current_nonce, sync_nonce,
}
use bulkmail.NonceManager.InFlight.{contains}
use bulkmail.NonceManager.Next.{HasRoom, get_next_available_nonce-reserves}
use bulkmail.NonceManager.Valid.{
  get_next_available_nonce-IsValid, mark_nonce_available-IsValid, update_current_nonce-IsValid,
}
use bulkmail.Adapter.Ethereum.{EthFeeParams}
use bulkmail.Adapter.Ethereum.Ladder.{handle_dropped-resubmit}
use bulkmail.Sender.Tasks.{
  Task, System, start, ended, drop_task, pending_of, Step, take, fail, confirm, drop, sync, Reach,
  here, next,
}
use bulkmail.Sender.Tasks.Held.{
  Holds, Differ, Apart, Counts, Apart-split, Apart-change, Inv, Holds-next, fresh_of_Holds,
  Holds-release, Holds-update, length-split,
}

-- A task that ends by giving its nonce back.
released-Inv :
    (s : System) (xs : List Task) (t : Task) (ys : List Task)
    → s.tasks ≡ xs ++ t ∷ ys
    → Inv s
    → Inv (ended s (mark_nonce_available s.nonces t.nonce) (xs ++ ys))
released-Inv s xs t ys e i =
    let (d, a) = Apart-split xs t ys (subst Apart e i.apart) in
    let (_, h) = All-split (Holds s.nonces) xs t ys (subst (All (Holds s.nonces)) e i.held) in
    let (_, c) = All-split Counts xs t ys (subst (All Counts) e i.counts) in
    record {
      valid = mark_nonce_available-IsValid s.nonces t.nonce i.valid;
      held =
          All-mono (λ u. Differ t u × Holds s.nonces u) _ (xs ++ ys)
            (λ u p. Holds-release s.nonces t.nonce u i.valid p.0 p.1)
            (All-both (Differ t) (Holds s.nonces) (xs ++ ys) d h);
      apart = a;
      counts = c;
      permitted = omega (arith, ap length e, length-split xs t ys, i.permitted);
    }

confirmed-Inv :
    (s : System) (xs : List Task) (t : Task) (ys : List Task)
    → s.tasks ≡ xs ++ t ∷ ys
    → Inv s
    → Inv (ended s (update_current_nonce s.nonces t.nonce) (xs ++ ys))
confirmed-Inv s xs t ys e i =
    let (_, a) = Apart-split xs t ys (subst Apart e i.apart) in
    let (_, h) = All-split (Holds s.nonces) xs t ys (subst (All (Holds s.nonces)) e i.held) in
    let (_, c) = All-split Counts xs t ys (subst (All Counts) e i.counts) in
    record {
      valid = update_current_nonce-IsValid s.nonces t.nonce i.valid;
      held =
          All-mono (Holds s.nonces) _ (xs ++ ys) (λ u p. Holds-update s.nonces t.nonce u i.valid p)
            h;
      apart = a;
      counts = c;
      permitted = omega (arith, ap length e, length-split xs t ys, i.permitted);
    }

taken-Inv :
    (s : System) (msg : Message) (fee : EthFeeParams)
    → 0 < s.permits
    → HasRoom s.nonces
    → Inv s
    → Inv (record {
      nonces = (get_next_available_nonce s.nonces).0;
      tasks =
          record {
            msg = msg;
            fee = fee;
            nonce = (get_next_available_nonce s.nonces).1;
            replacement_count = 0;
          }
          ∷ s.tasks;
      permits = s.permits - 1;
    })
taken-Inv s msg fee p r i = record {
  valid = get_next_available_nonce-IsValid s.nonces r i.valid;
  held = (inr (own s.nonces), All-mono (Holds s.nonces) _ s.tasks (Holds-next s.nonces) i.held);
  apart =
      (All-mono (Holds s.nonces) _ s.tasks (λ u h. fresh_of_Holds s.nonces u r h) i.held, i.apart);
  counts = (omega arith, i.counts);
  permitted = omega (arith, i.permitted);
}
  where
    own :
        (st : NonceState)
        → contains (get_next_available_nonce st).1 (get_next_available_nonce st).0.in_flight ≡ true
    own st =
        let r = get_next_available_nonce-reserves st (get_next_available_nonce st).1 in ground arith

-- A task that replaces its transaction keeps its nonce.
replaced-Inv :
    (s : System) (xs : List Task) (t u : Task) (ys : List Task)
    → s.tasks ≡ xs ++ t ∷ ys
    → u.nonce ≡ t.nonce
    → Counts u
    → Inv s
    → Inv (record s { tasks = xs ++ u ∷ ys })
replaced-Inv s xs t u ys e n k i =
    let (p, h) = All-split (Holds s.nonces) xs t ys (subst (All (Holds s.nonces)) e i.held) in
    let (_, c) = All-split Counts xs t ys (subst (All Counts) e i.counts) in
    record {
      valid = i.valid;
      held = All-insert (Holds s.nonces) xs u ys (rw n p) h;
      apart = Apart-change xs t u ys n (subst Apart e i.apart);
      counts = All-insert Counts xs u ys k c;
      permitted =
          omega (arith, ap length e, length-split xs t ys, length-split xs u ys, i.permitted);
    }

dropped-Inv :
    (s : System) (xs : List Task) (t : Task) (ys : List Task) (tx_id created_at : ℕ)
    → s.tasks ≡ xs ++ t ∷ ys
    → Inv s
    → Inv (drop_task s xs t ys tx_id created_at)
unfolding drop_task increment_retry can_retry
dropped-Inv s xs t ys tx_id created_at e i =
    let (k, _) = All-split Counts xs t ys (subst (All Counts) e i.counts) in
    elim (Bool-cases (ltb (min (t.msg.retry_count + 1) 4294967295) 3)) [
      | inl more ↦
          rw
            (
              more,
              handle_dropped-resubmit (pending_of t tx_id created_at) s.nonces
                  (omega (arith, ltb→lt _ _ more)) k,
            )
            (replaced-Inv s xs t _ ys e refl (omega (arith, ltb→lt _ _ more)) i)
      | inr spent ↦ rw spent (released-Inv s xs t ys e i)
    ]

synced-Inv :
    (s : System) (answer : Result ChainError ℕ)
    → Inv s
    → Inv (record s { nonces = (sync_nonce s.nonces answer).0 })
unfolding sync_nonce
synced-Inv s (ok n) i = record {
  valid = update_current_nonce-IsValid s.nonces n i.valid;
  held = All-mono (Holds s.nonces) _ s.tasks (λ u p. Holds-update s.nonces n u i.valid p) i.held;
  apart = i.apart;
  counts = i.counts;
  permitted = i.permitted;
}
synced-Inv s (err _) i = i

pub Step-Inv : {s s' : System} → Step s s' → Inv s → Inv s'
Step-Inv {s} (take msg fee p r e) i = rw e (taken-Inv s msg fee p r i)
Step-Inv {s} (fail xs t ys e f) i = rw f (released-Inv s xs t ys e i)
Step-Inv {s} (confirm xs t ys e f) i = rw f (confirmed-Inv s xs t ys e i)
Step-Inv {s} (drop xs t ys tx_id created_at e f) i =
    rw f (dropped-Inv s xs t ys tx_id created_at e i)
Step-Inv {s} (sync answer f) i = rw f (synced-Inv s answer i)

pub Reach-Inv : {s t : System} → Inv s → Reach s t → Inv t
Reach-Inv i here = i
Reach-Inv i (next r st) = Step-Inv st (Reach-Inv i r)

pub start-Inv : (n : ℕ) → Inv (start (record { current = n; in_flight = [] }))
start-Inv n = record { valid = tt; held = tt; apart = tt; counts = tt; permitted = refl }

-- From a start with no nonce in flight, and with room for the nonce at each one that is taken: whatever
-- the order in which the tasks and the main loop act, and whatever the chain answers, the
-- tasks that are sending at one time hold pairwise different nonces, each of them reserved or
-- already below the confirmed nonce, and they are sixteen at most.
pub Reach-Apart :
    (n : ℕ) {s : System}
    → Reach (start (record { current = n; in_flight = [] })) s
    → Apart s.tasks × All (Holds s.nonces) s.tasks × (length s.tasks ≤ 16)
Reach-Apart n r = let i = Reach-Inv (start-Inv n) r in (i.apart, i.held, omega (arith, i.permitted))
