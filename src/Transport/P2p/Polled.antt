-- ===== src/Transport/P2p/Polled.antt =====
-- crates/mempooloracle/src/transport/p2p.rs: the blocks that the poller sends.
use mathlib.Core.List.{append_assoc, append-nil, map-append}
use bulkmail.Prelude.{
  ℕ, ◌≡◌, refl, sym, ap, ◌∙◌, List, [], ◌∷◌, ◌++◌, map, length, All, false, Option, none, some,
  Result, ok, err, Bool-cases, Option-cases, inl, inr,
}
use bulkmail.Mempool.Tracker.{MempoolEvent, new_block}
use bulkmail.Runtime.{record_block}
use bulkmail.Transport.{TrackerError, Feed, send, feed}
use bulkmail.Transport.P2p.{
  PeerSession, PeerSessions, Header, BlockBody, block_update_from_header_body,
}
use bulkmail.Transport.P2p.Polling.{
  Network, Poller, is_last, past, on_block, body_of, on_headers, on_answer, on_tick,
  run_block_poller, poller, select_peer, headers_request, headers_of,
}

-- A header among those that the peer answers to the poller's request for headers in some state of the
-- network.
abbrev pub Told : {E : Type 0} → Network E → PeerSession → Header → Type 0
Told {E} network peer header =
    (number : Option ℕ) × (e : E) × (before : List Header) × (after : List Header) × (headers_of
        (network.get_headers peer (headers_request peer number) e).0
      ≡ ok (before ++ header ∷ after))

-- A header that some peer told, with the first body that the same peer answers to the request for the
-- body of that header's hash.
abbrev pub Answered : {E : Type 0} → Network E → Header × BlockBody → Type 0
Answered {E} network b =
    (peer : PeerSession) × Told network peer b.0
    × ((e : E) × (body_of (network.get_bodies peer.requests b.0.hash e).0 ≡ some b.1))

-- Blocks with their bodies, none with the hash of the one before it, the first not with `last`.
abbrev pub NoRepeat : Option ℕ → List (Header × BlockBody) → Type 0
NoRepeat last [] = Unit {0}
NoRepeat last (b ∷ blocks) = (is_last last b.0.hash ≡ false) × NoRepeat (some b.0.hash) blocks

abbrev pub last_of : Option ℕ → List (Header × BlockBody) → Option ℕ
last_of last [] = last
last_of last (b ∷ blocks) = last_of (some b.0.hash) blocks

abbrev pub as_event : Header × BlockBody → MempoolEvent
as_event b = new_block (block_update_from_header_body b.0 b.1)

-- What a part of the poller's work sends: such blocks, the last of which it remembers.
abbrev Polls : {E : Type 0} → Network E → Poller → Poller → Type 0
Polls network p p' =
    (blocks : List (Header × BlockBody)) × (p'.feed.channel.sent
      ≡ p.feed.channel.sent ++ map as_event blocks)
    × All (Answered network) blocks
    × NoRepeat p.last_block_hash blocks
    × (p'.last_block_hash ≡ last_of p.last_block_hash blocks)

NoRepeat-append :
    (last : Option ℕ) (xs ys : List (Header × BlockBody))
    → NoRepeat last xs
    → NoRepeat (last_of last xs) ys
    → NoRepeat last (xs ++ ys)
NoRepeat-append last [] ys h k = k
NoRepeat-append last (x ∷ xs) ys h k = (h.0, NoRepeat-append (some x.0.hash) xs ys h.1 k)

last_of-append :
    (last : Option ℕ) (xs ys : List (Header × BlockBody))
    → last_of last (xs ++ ys) ≡ last_of (last_of last xs) ys
last_of-append last [] ys = refl
last_of-append last (x ∷ xs) ys = last_of-append (some x.0.hash) xs ys

All-append :
    (P : Header × BlockBody → Type 0) (xs ys : List (Header × BlockBody))
    → All P xs
    → All P ys
    → All P (xs ++ ys)
All-append P [] ys h k = k
All-append P (x ∷ xs) ys h k = (h.0, All-append P xs ys h.1 k)

abbrev unsent : Header → BlockBody → Poller → Poller
unsent header body p =
    let update = block_update_from_header_body header body in
    record p {
      feed = record p.feed {
        telemetry = record_block (length update.included_txs) update.gas_used p.feed.telemetry;
      };
      polling = false;
    }

module _ {E : Type 0} (network : Network E) where
  silent :
      (p p' : Poller)
      → p'.feed.channel.sent ≡ p.feed.channel.sent
      → p'.last_block_hash ≡ p.last_block_hash
      → Polls network p p'
  silent p p' e h = ([], e ∙ sym (append-nil _), tt, tt, h)

  Polls-trans : (p q r : Poller) → Polls network p q → Polls network q r → Polls network p r
  Polls-trans p q r (xs, e, a, n, l) (ys, f, b, m, k) = (
    xs ++ ys,
    f
        ∙ ap (λ s. s ++ map as_event ys) e
        ∙ append_assoc p.feed.channel.sent (map as_event xs) (map as_event ys)
        ∙ ap (λ s. p.feed.channel.sent ++ s) (sym (map-append as_event xs ys)),
    All-append (Answered network) xs ys a b,
    NoRepeat-append p.last_block_hash xs ys n (rw (← l) m),
    k ∙ ap (λ h. last_of h ys) l ∙ sym (last_of-append p.last_block_hash xs ys),
  )

  on_block-Polls :
      (header : Header) (body : BlockBody) (p : Poller)
      → Answered network (header, body)
      → is_last p.last_block_hash header.hash ≡ false
      → Polls network p (on_block header body p)
  unfolding on_block feed send
  on_block-Polls header body p told new = elim (Bool-cases p.feed.channel.receiver) [
    | inl alive ↦ rw alive ((header, body) ∷ [], refl, (told, tt), (new, tt), refl)
    | inr gone ↦ rw gone (silent p (unsent header body p) refl refl)
  ]

  answer-All-Told :
      (peer : PeerSession) (number : Option ℕ) (e : E) (before headers : List Header)
      → headers_of (network.get_headers peer (headers_request peer number) e).0
        ≡ ok (before ++ headers)
      → All (Told network peer) headers
  answer-All-Told peer number e before [] h = tt
  answer-All-Told peer number e before (header ∷ headers) h = (
    (number, e, before, headers, h),
    answer-All-Told peer number e (before ++ header ∷ []) headers
        (h ∙ ap ok (sym (append_assoc before (header ∷ []) headers))),
  )

  on_headers-Polls :
      (peer : PeerSession) (headers : List Header) (p : Poller) (e : E)
      → All (Told network peer) headers
      → Polls network p (on_headers network peer headers p e).0
  unfolding on_headers
  on_headers-Polls peer [] p e t = silent p p refl refl
  on_headers-Polls peer (header ∷ headers) p e t =
      let (reply, e') = network.get_bodies peer.requests header.hash e in
      elim (Bool-cases (is_last p.last_block_hash header.hash)) [
        | inl old ↦ rw old (
            Polls-trans p (past header p) (on_headers network peer headers (past header p) e).0
              (silent p (past header p) refl refl)
              (on_headers-Polls peer headers (past header p) e t.1))
        | inr new ↦ elim (Option-cases (body_of reply)) [
          | inl missing ↦ rw (new, missing) (silent p p refl refl)
          | inr (body, there) ↦
              let p' = on_block header body p in
              elim (Bool-cases p'.polling) [
                | inl going ↦
                    rw (new, there, going)
                      (Polls-trans p p' (on_headers network peer headers p' e').0
                        (on_block-Polls header body p (peer, t.0, (e, there)) new)
                        (on_headers-Polls peer headers p' e' t.1))
                | inr ended ↦
                    rw (new, there, ended)
                      (on_block-Polls header body p (peer, t.0, (e, there)) new)
              ]
        ]
      ]

  on_answer-Polls :
      (peer : PeerSession) (number : Option ℕ) (e : E) (headers : Result TrackerError (List Header))
      (p : Poller) (e' : E)
      → headers_of (network.get_headers peer (headers_request peer number) e).0 ≡ headers
      → Polls network p (on_answer network peer headers p e').0
  unfolding on_answer
  on_answer-Polls peer number e (err why) p e' h = silent p p refl refl
  on_answer-Polls peer number e (ok headers) p e' h =
      on_headers-Polls peer headers p e' (answer-All-Told peer number e [] headers h)

  on_tick-Polls :
      (sessions : PeerSessions) (p : Poller) (e : E)
      → Polls network p (on_tick network sessions p e).0
  unfolding on_tick
  on_tick-Polls sessions p e = elim (Option-cases (select_peer sessions p.next_block_number)) [
    | inl nobody ↦ rw (on_tick, nobody) (silent p p refl refl)
    | inr (peer, found) ↦
        let (reply, e') = network.get_headers peer (headers_request peer p.next_block_number) e in
        rw (on_tick, found)
          (on_answer-Polls peer p.next_block_number e (headers_of reply) p e' refl)
  ]

  run_block_poller-Polls :
      (ticks : List PeerSessions) (p : Poller) (e : E)
      → Polls network p (run_block_poller network ticks p e).0
  unfolding run_block_poller
  run_block_poller-Polls [] p e = silent p p refl refl
  run_block_poller-Polls (sessions ∷ ticks) p e =
      let (p', e') = on_tick network sessions p e in
      elim (Bool-cases p'.polling) [
        | inl going ↦ rw going (
            Polls-trans p p' (run_block_poller network ticks p' e').0 (on_tick-Polls sessions p e)
              (run_block_poller-Polls ticks p' e'))
        | inr ended ↦ rw ended (on_tick-Polls sessions p e)
      ]

  -- Whatever the ticks see as sessions and whatever the peers answer, what the poller sends from its start
  -- are the updates of a list of blocks, in order. Each is a header that a peer answered to a request for
  -- headers, with the body that the same peer answered to the request by that header's hash; none has the hash
  -- of the one before it, and the hash that the poller remembers is that of the last one.
  pub run_block_poller-NoRepeat :
      (ticks : List PeerSessions) (f : Feed) (e : E)
      → let p = (run_block_poller network ticks (poller f) e).0 in
        (blocks : List (Header × BlockBody)) × (p.feed.channel.sent
          ≡ f.channel.sent ++ map as_event blocks)
        × All (Answered network) blocks
        × NoRepeat none blocks
        × (p.last_block_hash ≡ last_of none blocks)
  run_block_poller-NoRepeat ticks f e = run_block_poller-Polls ticks (poller f) e
