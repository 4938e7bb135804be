-- ===== src/Transport/P2p/Peers.antt =====
-- crates/mempooloracle/src/transport/p2p.rs: the map of sessions, by the events of the peers.
use bulkmail.Prelude.{
  ℕ, ◌≡◌, ◌≢◌, refl, sym, ap, ◌∙◌, List, [], ◌∷◌, length, false, if◌then◌else◌, Option, none, some,
  All, ◌==◌, if_either, ==→eq, ==→ne, arith, Bool-cases, inl, inr,
}
use bulkmail.Runtime.{record_p2p_peer_count}
use bulkmail.Transport.{Feed}
use bulkmail.Transport.P2p.{
  PeerSession, PeerSessions, PeerEvent, active_peer_session, session_closed, peer_removed,
  other_event, insert_session, remove_session, on_peer_event, run_peer_event_listener,
}

-- `HashMap::get`
unfoldable pub session_of : ℕ → PeerSessions → Option PeerSession
session_of peer [] = none
session_of peer ((p, s) ∷ rest) = if peer == p then some s else session_of peer rest

-- What an event makes of the session of one peer, and what a list of them makes.
abbrev pub told : ℕ → PeerEvent → Option PeerSession → Option PeerSession
told peer (active_peer_session p s) now = if peer == p then some s else now
told peer (session_closed p) now = if peer == p then none else now
told peer (peer_removed p) now = if peer == p then none else now
told peer other_event now = now

unfoldable pub last_told : ℕ → List PeerEvent → Option PeerSession → Option PeerSession
last_told peer [] now = now
last_told peer (event ∷ events) now = last_told peer events (told peer event now)

abbrev Other : ℕ → ℕ × PeerSession → Type 0
Other peer e = e.0 ≢ peer

abbrev pub DistinctPeers : PeerSessions → Type 0
DistinctPeers [] = Unit {0}
DistinctPeers ((p, s) ∷ rest) = All (Other p) rest × DistinctPeers rest

session_of-Other : (peer : ℕ) (m : PeerSessions) → All (Other peer) m → session_of peer m ≡ none
unfolding session_of
session_of-Other peer [] h = refl
session_of-Other peer ((p, s) ∷ m) h = elim (Bool-cases (peer == p)) [
  | inl same ↦ absurd (h.0 (sym (==→eq peer p same)))
  | inr other ↦ rw other (session_of-Other peer m h.1)
]

insert_session-Other :
    (q p : ℕ) (s : PeerSession) (m : PeerSessions)
    → p ≢ q
    → All (Other q) m
    → All (Other q) (insert_session p s m)
unfolding insert_session
insert_session-Other q p s [] d h = (d, tt)
insert_session-Other q p s ((r, t) ∷ m) d h =
    if_either (All (Other q)) (p == r) (λ _. (d, h.1))
      (λ _. (h.0, insert_session-Other q p s m d h.1))

insert_session-DistinctPeers :
    (p : ℕ) (s : PeerSession) (m : PeerSessions)
    → DistinctPeers m
    → DistinctPeers (insert_session p s m)
unfolding insert_session
insert_session-DistinctPeers p s [] d = (tt, tt)
insert_session-DistinctPeers p s ((r, t) ∷ m) d = elim (Bool-cases (p == r)) [
  | inl same ↦ let e : p ≡ r = ==→eq p r same in rw (same, e) (d.0, d.1)
  | inr other ↦
      rw other
        (insert_session-Other r p s m (==→ne p r other) d.0, insert_session-DistinctPeers p s m d.1)
]

remove_session-Other :
    (q p : ℕ) (m : PeerSessions) → All (Other q) m → All (Other q) (remove_session p m)
unfolding remove_session
remove_session-Other q p [] h = tt
remove_session-Other q p ((r, t) ∷ m) h =
    if_either (All (Other q)) (p == r) (λ _. h.1) (λ _. (h.0, remove_session-Other q p m h.1))

remove_session-DistinctPeers :
    (p : ℕ) (m : PeerSessions) → DistinctPeers m → DistinctPeers (remove_session p m)
unfolding remove_session
remove_session-DistinctPeers p [] d = tt
remove_session-DistinctPeers p ((r, t) ∷ m) d =
    if_either DistinctPeers (p == r) (λ _. d.1)
      (λ _. (remove_session-Other r p m d.0, remove_session-DistinctPeers p m d.1))

session_of-insert_session :
    (q p : ℕ) (s : PeerSession) (m : PeerSessions)
    → session_of q (insert_session p s m) ≡ (if q == p then some s else session_of q m)
unfolding session_of insert_session
session_of-insert_session q p s [] = refl
session_of-insert_session q p s ((r, t) ∷ m) = elim (Bool-cases (p == r)) [
  | inl same ↦
      let e : p ≡ r = ==→eq p r same in
      elim (Bool-cases (q == p)) [
        | inl here ↦ rw (same, here) refl
        | inr away ↦ let f : (q == r) ≡ false = rw (← e) away in rw (same, away, f) refl
      ]
  | inr other ↦ elim (Bool-cases (q == r)) [
    | inl here ↦
        let e : q ≡ r = ==→eq q r here in
        let f : (q == p) ≡ false = ground arith in rw (other, here, f) refl
    | inr away ↦ rw (other, away) (session_of-insert_session q p s m)
  ]
]

session_of-remove_session :
    (q p : ℕ) (m : PeerSessions)
    → DistinctPeers m
    → session_of q (remove_session p m) ≡ (if q == p then none else session_of q m)
unfolding session_of remove_session
session_of-remove_session q p [] d = elim (Bool-cases (q == p)) [
  | inl here ↦ rw here refl
  | inr away ↦ rw away refl
]
session_of-remove_session q p ((r, t) ∷ m) d = elim (Bool-cases (p == r)) [
  | inl same ↦
      let e : p ≡ r = ==→eq p r same in
      elim (Bool-cases (q == p)) [
        | inl here ↦
            let f : q ≡ r = ==→eq q p here ∙ e in rw (same, here, f) (session_of-Other r m d.0)
        | inr away ↦ let f : (q == r) ≡ false = rw (← e) away in rw (same, away, f) refl
      ]
  | inr other ↦ elim (Bool-cases (q == r)) [
    | inl here ↦
        let e : q ≡ r = ==→eq q r here in
        let f : (q == p) ≡ false = ground arith in rw (other, here, f) refl
    | inr away ↦ rw (other, away) (session_of-remove_session q p m d.1)
  ]
]

told-on_peer_event :
    (q : ℕ) (event : PeerEvent) (m : PeerSessions) (f : Feed)
    → DistinctPeers m
    → session_of q (on_peer_event event m f).0 ≡ told q event (session_of q m)
unfolding on_peer_event
told-on_peer_event q (active_peer_session p s) m f d = session_of-insert_session q p s m
told-on_peer_event q (session_closed p) m f d = session_of-remove_session q p m d
told-on_peer_event q (peer_removed p) m f d = session_of-remove_session q p m d
told-on_peer_event q other_event m f d = refl

-- One session a peer, and the reported count is their number.
abbrev pub Counted : PeerSessions × Feed → Type 0
Counted (m, f) = DistinctPeers m × (f.telemetry.p2p_peer_count ≡ length m)

on_peer_event-Counted :
    (event : PeerEvent) (m : PeerSessions) (f : Feed)
    → Counted (m, f)
    → Counted (on_peer_event event m f)
unfolding on_peer_event record_p2p_peer_count
on_peer_event-Counted (active_peer_session p s) m f c =
    (insert_session-DistinctPeers p s m c.0, refl)
on_peer_event-Counted (session_closed p) m f c = (remove_session-DistinctPeers p m c.0, refl)
on_peer_event-Counted (peer_removed p) m f c = (remove_session-DistinctPeers p m c.0, refl)
on_peer_event-Counted other_event m f c = c

-- From a map with one session a peer, and whose number of sessions is the reported one: after any
-- events a peer has the session that the last event on it opened, none if that one closed the session or
-- removed the peer, and the one it had if there was no such event; each peer has one session; and the
-- reported number of peers is the number of sessions.
pub run_peer_event_listener-last_told :
    (events : List PeerEvent) (m : PeerSessions) (f : Feed)
    → Counted (m, f)
    → ((q : ℕ)
        → session_of q (run_peer_event_listener events m f).0 ≡ last_told q events (session_of q m))
      × Counted (run_peer_event_listener events m f)
unfolding run_peer_event_listener last_told
run_peer_event_listener-last_told [] m f c = (λ q. refl, c)
run_peer_event_listener-last_told (event ∷ events) m f c =
    let r = on_peer_event event m f in
    let c' : Counted r = on_peer_event-Counted event m f c in
    let (ih, counted) = run_peer_event_listener-last_told events r.0 r.1 c' in
    (λ q. ih q ∙ ap (last_told q events) (told-on_peer_event q event m f c.0), counted)
