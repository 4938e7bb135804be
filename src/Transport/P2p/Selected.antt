-- ===== src/Transport/P2p/Selected.antt =====
-- crates/mempooloracle/src/transport/p2p.rs: the peer that the poller asks.
use mathlib.Core.List.{Memᴰ}
use bulkmail.Prelude.{
  ℕ, ◌≡◌, ◌⊎◌, ◌≤◌, refl, List, [], ◌∷◌, map, Bool, true, false, Option, none, some, All, All-mono,
  arith, ltb, Bool-cases, inl, inr,
}
use bulkmail.Transport.P2p.{PeerSession, PeerSessions}
use bulkmail.Transport.P2p.Polling.{
  latest, reaches, max_by_latest, filter_reaching, later, or_first, select_peer,
}

abbrev NotAbove : ℕ → PeerSession → Type 0
NotAbove n t = latest t ≤ n

-- One of the greatest latest block; none of none.
abbrev IsMax : List PeerSession → Option PeerSession → Type 0
IsMax ss none = ss ≡ []
IsMax ss (some s) = Memᴰ s ss × All (NotAbove (latest s)) ss

later-IsMax :
    (s : PeerSession) (rest : List PeerSession) (o : Option PeerSession)
    → IsMax rest o
    → IsMax (s ∷ rest) (later s o)
later-IsMax s rest none h = rw h (Memᴰ.head refl, (omega arith, tt))
later-IsMax s rest (some t) h = elim (Bool-cases (ltb (latest t) (latest s))) [
  | inl above ↦ rw above (
    Memᴰ.head refl,
    (
      omega arith,
      All-mono (NotAbove (latest t)) (NotAbove (latest s)) rest (λ u k. ground arith) h.1,
    ),
  )
  | inr below ↦ rw below (Memᴰ.tail h.0, (ground arith, h.1))
]

max_by_latest-IsMax : (ss : List PeerSession) → IsMax ss (max_by_latest ss)
unfolding max_by_latest
max_by_latest-IsMax [] = refl
max_by_latest-IsMax (s ∷ rest) = later-IsMax s rest (max_by_latest rest) (max_by_latest-IsMax rest)

-- The sessions that the poller would ask for a block.
abbrev pub fits : Option ℕ → PeerSession → Bool
fits none s = true
fits (some n) s = reaches n s

abbrev pub NotBetter : Option ℕ → ℕ → PeerSession → Type 0
NotBetter target n t = (fits target t ≡ false) ⊎ (latest t ≤ n)

abbrev pub NotFit : Option ℕ → PeerSession → Type 0
NotFit target t = fits target t ≡ false

-- One that fits, of the greatest latest block of these; none if none fits.
abbrev IsBest : Option ℕ → List PeerSession → Option PeerSession → Type 0
IsBest target ss none = All (NotFit target) ss
IsBest target ss (some s) =
    Memᴰ s ss × (fits target s ≡ true) × All (NotBetter target (latest s)) ss

skip-IsBest :
    (n : ℕ) (s : PeerSession) (ss : List PeerSession) (o : Option PeerSession)
    → reaches n s ≡ false
    → IsBest (some n) ss o
    → IsBest (some n) (s ∷ ss) o
skip-IsBest n s ss none unfit h = (unfit, h)
skip-IsBest n s ss (some t) unfit h = (Memᴰ.tail h.0, h.1, (inl unfit, h.2))

later-IsBest :
    (n : ℕ) (s : PeerSession) (ss : List PeerSession) (o : Option PeerSession)
    → reaches n s ≡ true
    → IsBest (some n) ss o
    → IsBest (some n) (s ∷ ss) (later s o)
later-IsBest n s ss none fit h = (
  Memᴰ.head refl,
  fit,
  (
    inr (omega arith),
    All-mono (NotFit (some n)) (NotBetter (some n) (latest s)) ss (λ u k. inl k) h,
  ),
)
later-IsBest n s ss (some t) fit h = elim (Bool-cases (ltb (latest t) (latest s))) [
  | inl above ↦ rw above (
    Memᴰ.head refl,
    fit,
    (
      inr (omega arith),
      All-mono (NotBetter (some n) (latest t)) (NotBetter (some n) (latest s)) ss
          (λ u k. elim k [ inl unfit ↦ inl unfit | inr low ↦ inr (ground arith) ]) h.2,
    ),
  )
  | inr below ↦ rw below (Memᴰ.tail h.0, h.1, (inr (ground arith), h.2))
]

filter_reaching-IsBest :
    (n : ℕ) (ss : List PeerSession) → IsBest (some n) ss (max_by_latest (filter_reaching n ss))
unfolding filter_reaching max_by_latest
filter_reaching-IsBest n [] = tt
filter_reaching-IsBest n (s ∷ ss) = elim (Bool-cases (reaches n s)) [
  | inl fit ↦
      rw (filter_reaching, fit)
        (later-IsBest n s ss (max_by_latest (filter_reaching n ss)) fit
          (filter_reaching-IsBest n ss))
  | inr unfit ↦
      rw (filter_reaching, unfit)
        (skip-IsBest n s ss (max_by_latest (filter_reaching n ss)) unfit
          (filter_reaching-IsBest n ss))
]

-- What the choice is among: no peer of no sessions; else a peer of them, and if it does not fit, none does.
abbrev pub IsChoice : Option ℕ → List PeerSession → Option PeerSession → Type 0
IsChoice target ss none = ss ≡ []
IsChoice target ss (some s) =
    Memᴰ s ss
    × (All (NotFit target) ss ⊎ ((fits target s ≡ true) × All (NotBetter target (latest s)) ss))

or_first-IsChoice :
    (target : Option ℕ) (ss : List PeerSession) (o : Option PeerSession)
    → IsBest target ss o
    → IsChoice target ss (or_first o ss)
or_first-IsChoice target ss (some s) h = (h.0, inr (h.1, h.2))
or_first-IsChoice target [] none h = refl
or_first-IsChoice target (s ∷ ss) none h = (Memᴰ.head refl, inl h)

any-IsChoice : (ss : List PeerSession) (o : Option PeerSession) → IsMax ss o → IsChoice none ss o
any-IsChoice ss none h = h
any-IsChoice ss (some s) h = (
  h.0,
  inr (refl, All-mono (NotAbove (latest s)) (NotBetter none (latest s)) ss (λ u k. inr k) h.1),
)

-- The poller asks no peer only when it has no session, and else one of its sessions. If some
-- session fits the block it waits for (its latest block is unknown, or the `u64` after it is at
-- least that block; any session fits when it waits for none), the chosen one fits, and no fitting one has a later latest block.
pub select_peer-IsChoice :
    (sessions : PeerSessions) (target : Option ℕ)
    → IsChoice target (map (λ e. e.1) sessions) (select_peer sessions target)
unfolding select_peer
select_peer-IsChoice sessions none =
    any-IsChoice (map (λ e. e.1) sessions) (max_by_latest (map (λ e. e.1) sessions))
      (max_by_latest-IsMax (map (λ e. e.1) sessions))
select_peer-IsChoice sessions (some n) =
    or_first-IsChoice (some n) (map (λ e. e.1) sessions)
      (max_by_latest (filter_reaching n (map (λ e. e.1) sessions)))
      (filter_reaching-IsBest n (map (λ e. e.1) sessions))
