-- ===== src/Transport/P2p/Polling.antt =====
-- crates/mempooloracle/src/transport/p2p.rs: the block poller: which peer it asks, and what it makes of
-- the answers.
use Prim.Native.String.{String, ◌++◌ as str_append}
use bulkmail.Prelude.{
  ℕ, ltb, leb, ◌==◌, List, [], ◌∷◌, map, length, Bool, true, false, if◌then◌else◌, Option, none,
  some, Result, ok, err, add_u64,
}
use bulkmail.Mempool.Tracker.{new_block}
use bulkmail.Runtime.{record_block}
use bulkmail.Transport.{TrackerError, timeout, setup, Feed, feed}
use bulkmail.Transport.Rpc.{or_else}
use bulkmail.Transport.P2p.{
  PeerSession, PeerSessions, Header, BlockBody, block_update_from_header_body,
}

abbrev pub max_headers_per_poll : ℕ
max_headers_per_poll = 8

-- `latest_block.unwrap_or_default()`
abbrev pub latest : PeerSession → ℕ
latest s = or_else s.latest_block 0

-- `latest_block.is_none_or(|latest| latest + 1 >= target)`
abbrev pub reaches : ℕ → PeerSession → Bool
reaches target s = elim s.latest_block [ none ↦ true | some n ↦ leb target (add_u64 n 1) ]

-- `max_by_key`: the last of the greatest.
abbrev pub later : PeerSession → Option PeerSession → Option PeerSession
later s none = some s
later s (some t) = if ltb (latest t) (latest s) then some s else some t

unfoldable pub max_by_latest : List PeerSession → Option PeerSession
max_by_latest [] = none
max_by_latest (s ∷ rest) = later s (max_by_latest rest)

unfoldable pub filter_reaching : ℕ → List PeerSession → List PeerSession
filter_reaching target [] = []
filter_reaching target (s ∷ rest) =
    if reaches target s then s ∷ filter_reaching target rest else filter_reaching target rest

-- `or_else(|| values().next())`
abbrev pub or_first : Option PeerSession → List PeerSession → Option PeerSession
or_first (some s) ss = some s
or_first none [] = none
or_first none (s ∷ ss) = some s

unfoldable pub select_peer : PeerSessions → Option ℕ → Option PeerSession
unfolding max_by_latest filter_reaching
select_peer sessions none = max_by_latest (map (λ e. e.1) sessions)
select_peer sessions (some target) =
    or_first (max_by_latest (filter_reaching target (map (λ e. e.1) sessions)))
      (map (λ e. e.1) sessions)

pub data BlockHashOrNumber : Type 0 where
  by_number : ℕ → BlockHashOrNumber
  by_hash : ℕ → BlockHashOrNumber

-- `GetBlockHeaders`, which always skips none and rises.
pub record GetBlockHeaders : Type 0 where
  pub start_block : BlockHashOrNumber
  pub limit : ℕ

unfoldable pub headers_request : PeerSession → Option ℕ → GetBlockHeaders
headers_request peer (some number) = record {
  start_block = by_number number;
  limit = max_headers_per_poll;
}
headers_request peer none = elim peer.latest_block [
  | some number ↦ record { start_block = by_number number; limit = 1 }
  | none ↦ record { start_block = by_hash peer.head_hash; limit = 1 }
]

-- The way of a request through a session: refused on the way out, given up, its answer lost, or
-- answered, with a result of its own.
pub data Reply {ℓ} (A : Type ℓ) : Type ℓ where
  refused : String → Reply A
  given_up : Reply A
  lost : String → Reply A
  replied : Result String A → Reply A

unfoldable pub headers_of : Reply (List Header) → Result TrackerError (List Header)
headers_of (refused why) = err (setup (str_append "failed to request block headers: " why))
headers_of given_up = err (timeout "p2p getBlockHeaders")
headers_of (lost why) = err (setup (str_append "header response channel dropped: " why))
headers_of (replied (err why)) = err (setup (str_append "block header request failed: " why))
headers_of (replied (ok headers)) = ok headers

unfoldable pub body_of : Reply (List BlockBody) → Option BlockBody
body_of (replied (ok (body ∷ bodies))) = some body
body_of (replied (ok [])) = none
body_of (replied (err why)) = none
body_of (refused why) = none
body_of given_up = none
body_of (lost why) = none

-- The peers' side, over the state `E` of the network.
pub record Network (E : Type 0) : Type 0 where
  pub get_headers : PeerSession → GetBlockHeaders → E → Reply (List Header) × E
  pub get_bodies : ℕ → ℕ → E → Reply (List BlockBody) × E

-- The variables of `run_block_poller`; `polling` is false once it has returned.
pub record Poller : Type 0 where
  pub next_block_number : Option ℕ
  pub last_block_hash : Option ℕ
  pub feed : Feed
  pub polling : Bool

abbrev pub is_last : Option ℕ → ℕ → Bool
is_last none hash = false
is_last (some h) hash = h == hash

abbrev pub past : Header → Poller → Poller
past header p = record p { next_block_number = some (add_u64 header.number 1) }

-- A block whose body is there: counted, sent, and passed.
unfoldable pub on_block : Header → BlockBody → Poller → Poller
unfolding block_update_from_header_body
on_block header body p =
    let update = block_update_from_header_body header body in
    let counted = record p.feed {
      telemetry = record_block (length update.included_txs) update.gas_used p.feed.telemetry;
    } in
    let (f, sent) = feed (new_block update) counted in
    let after = record p { feed = f } in
    if sent
    then record (past header after) { last_block_hash = some header.hash }
    else record after { polling = false }

module _ {E : Type 0} (network : Network E) where
  -- The loop over the headers of one answer.
  unfoldable pub on_headers : PeerSession → List Header → Poller → E → Poller × E
  unfolding on_block body_of
  on_headers peer [] p e = (p, e)
  on_headers peer (header ∷ headers) p e =
      let again = on_headers peer headers (past header p) e in
      let (reply, e') = network.get_bodies peer.requests header.hash e in
      let missing : Poller × E = (p, e') in
      let next : Poller × E = elim (body_of reply) [
        | none ↦ missing
        | some body ↦
            let p' = on_block header body p in
            if p'.polling then on_headers peer headers p' e' else (p', e')
      ] in
      if is_last p.last_block_hash header.hash then again else next

  unfoldable pub on_answer :
      PeerSession → Result TrackerError (List Header) → Poller → E → Poller × E
  unfolding on_headers
  on_answer peer (err why) p e = (p, e)
  on_answer peer (ok headers) p e = on_headers peer headers p e

  -- A turn of the loop, on a tick of its clock.
  unfoldable pub on_tick : PeerSessions → Poller → E → Poller × E
  unfolding select_peer headers_request headers_of on_answer
  on_tick sessions p e = elim (select_peer sessions p.next_block_number) [
    | none ↦ (p, e)
    | some peer ↦
        let (reply, e') = network.get_headers peer (headers_request peer p.next_block_number) e in
        on_answer peer (headers_of reply) p e'
  ]

  -- The loop over the ticks that come before the shutdown, with the sessions at each.
  unfoldable pub run_block_poller : List PeerSessions → Poller → E → Poller × E
  unfolding on_tick
  run_block_poller [] p e = (p, e)
  run_block_poller (sessions ∷ ticks) p e =
      let (p', e') = on_tick sessions p e in
      let rest = run_block_poller ticks p' e' in
      let ended : Poller × E = (p', e') in if p'.polling then rest else ended

-- The poller at its start.
abbrev pub poller : Feed → Poller
poller f = record { next_block_number = none; last_block_hash = none; feed = f; polling = true }
