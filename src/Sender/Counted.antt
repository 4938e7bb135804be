-- ===== src/Sender/Counted.antt =====
-- An adapter that also records what the sender asks of it: how often it sends and takes a replay token,
-- and which tokens are handed to the sender, given back, and handed over as confirmed.
use bulkmail.Prelude.{ℕ, suc, List, [], ◌∷◌}
use bulkmail.Adapter.{ChainAdapter, RetryDecision, resubmit, requeue, abandon}
use bulkmail.Clock.{TimeSource}

-- Each list with the newest token first. A token is handed out when it is taken and when a resubmission
-- brings it.
pub record Counters (ReplayToken : Type 0) : Type 0 where
  pub sent : ℕ
  pub taken : ℕ
  pub handed : List ReplayToken
  pub released : List ReplayToken
  pub confirmed : List ReplayToken

abbrev pub fresh : {T : Type 0} → Counters T
fresh = record { sent = 0; taken = 0; handed = []; released = []; confirmed = [] }

abbrev pub handed_by : {P T : Type 0} → RetryDecision P T → List T → List T
handed_by (resubmit fee token) tokens = token ∷ tokens
handed_by requeue tokens = tokens
handed_by abandon tokens = tokens

abbrev pub counted : ChainAdapter → ChainAdapter
counted A = record {
  World = A.World × Counters A.ReplayToken;
  FeeParams = A.FeeParams;
  ReplayToken = A.ReplayToken;
  TxId = A.TxId;
  client = record {
    subscribe_new_blocks =
        λ v. let (w, c) = v in let (r, w') = A.client.subscribe_new_blocks w in (r, (w', c));
    get_block_number =
        λ v. let (w, c) = v in let (r, w') = A.client.get_block_number w in (r, (w', c));
    send_transaction = λ msg fee token v.
        let (w, c) = v in
        let (r, w') = A.client.send_transaction msg fee token w in
        (r, (w', record c { sent = suc c.sent }));
    get_transaction_status = λ id v.
        let (w, c) = v in let (r, w') = A.client.get_transaction_status id w in (r, (w', c));
  };
  fees = record {
    get_fee_params =
        λ p v. let (w, c) = v in let (r, w') = A.fees.get_fee_params p w in (r, (w', c));
    update_on_confirmation =
        λ t fee v. let (w, c) = v in (A.fees.update_on_confirmation t fee w, c);
    bump_fee = A.fees.bump_fee;
    get_base_fee = λ v. A.fees.get_base_fee v.0;
  };
  replay = record {
    next = λ v.
        let (w, c) = v in
        let (w', t) = A.replay.next w in
        ((w', record c { taken = suc c.taken; handed = t ∷ c.handed }), t);
    sync = λ v. let (w, c) = v in let (w', r) = A.replay.sync w in ((w', c), r);
    release =
        λ t v. let (w, c) = v in (A.replay.release t w, record c { released = t ∷ c.released });
  };
  retry = record {
    handle_dropped = λ p v.
        let (w, c) = v in
        let (w', d) = A.retry.handle_dropped p w in
        ((w', record c { handed = handed_by d c.handed }), d);
    handle_confirmed = λ p t v.
        let (w, c) = v in
        (A.retry.handle_confirmed p t w, record c { confirmed = p.replay_token ∷ c.confirmed });
  };
}

-- The clocks do not touch the counters.
abbrev pub counted_time : {W T : Type 0} → TimeSource W → TimeSource (W × Counters T)
counted_time t = record {
  since_epoch = λ v. let (w, c) = v in let (d, w') = t.since_epoch w in (d, (w', c));
  monotonic = λ v. let (w, c) = v in let (d, w') = t.monotonic w in (d, (w', c));
}
