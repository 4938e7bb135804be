-- ===== src/Adapter/Ethereum/Logged.antt =====
-- A chain that also keeps the transactions that were broadcast, oldest first.
use bulkmail.Prelude.{List, [], ◌∷◌, ◌++◌, Result, ok, err}
use bulkmail.Error.{ChainError}
use bulkmail.Clock.{TimeSource}
use bulkmail.Chain.{ChainClient, TxEip1559, Watcher}

abbrev pub Log : Type 0
Log = List TxEip1559

abbrev pub logged_watcher : {E : Type 0} → Watcher E → Watcher (E × Log)
logged_watcher w = record {
  tx_hash = w.tx_hash;
  register = λ n t v. let (e, l) = v in let (r, e') = w.register n t e in (r, (e', l));
  wait = λ v. let (e, l) = v in let (r, e') = w.wait e in (r, (e', l));
}

abbrev pub logged_answer :
    {E : Type 0} → Result ChainError (Watcher E) → Result ChainError (Watcher (E × Log))
logged_answer (ok w) = ok (logged_watcher w)
logged_answer (err e) = err e

abbrev pub logged : {E : Type 0} → ChainClient E → ChainClient (E × Log)
logged chain = record {
  id = chain.id;
  subscribe_new_blocks =
      λ v. let (e, l) = v in let (r, e') = chain.subscribe_new_blocks e in (r, (e', l));
  get_block_number = λ v. let (e, l) = v in let (r, e') = chain.get_block_number e in (r, (e', l));
  get_account_nonce =
      λ a v. let (e, l) = v in let (r, e') = chain.get_account_nonce a e in (r, (e', l));
  get_receipt = λ h v. let (e, l) = v in let (r, e') = chain.get_receipt h e in (r, (e', l));
  send_transaction = λ tx v.
      let (e, l) = v in
      let (r, e') = chain.send_transaction tx e in (logged_answer r, (e', l ++ tx ∷ []));
}

abbrev pub logged_time : {E : Type 0} → TimeSource E → TimeSource (E × Log)
logged_time t = record {
  since_epoch = λ v. let (e, l) = v in let (d, e') = t.since_epoch e in (d, (e', l));
  monotonic = λ v. let (e, l) = v in let (d, e') = t.monotonic e in (d, (e', l));
}
