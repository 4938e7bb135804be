-- ===== src/Runtime/Counts.antt =====
-- crates/mempooloracle/src/runtime.rs: the counters count.
use bulkmail.Prelude.{ℕ, ◌+◌, ◌%◌, ◌≡◌, List, [], ◌∷◌, arith, u64_mod}
use bulkmail.Runtime.{
  RuntimeTelemetry, Event, backfill, pending, block, peers, announcement, import_, record_event,
  record_events,
}

-- How often each of the four counted methods is called.
pub record Tally : Type 0 where
  pub pendings : ℕ
  pub blocks : ℕ
  pub announcements : ℕ
  pub imports : ℕ

unfoldable pub tally : List Event → Tally
tally [] = record { pendings = 0; blocks = 0; announcements = 0; imports = 0 }
tally (backfill _ ∷ events) = tally events
tally (pending ∷ events) = let n = tally events in record n { pendings = n.pendings + 1 }
tally (block _ _ ∷ events) = let n = tally events in record n { blocks = n.blocks + 1 }
tally (peers _ ∷ events) = tally events
tally (announcement ∷ events) =
    let n = tally events in record n { announcements = n.announcements + 1 }
tally (import_ ∷ events) = let n = tally events in record n { imports = n.imports + 1 }

-- All four counters are those of `t` with the tally added, modulo 2^64.
abbrev pub Counts : RuntimeTelemetry → Tally → RuntimeTelemetry → Type 0
Counts t n t' =
    (t'.pending_seen % u64_mod ≡ (t.pending_seen + n.pendings) % u64_mod)
    × (t'.block_count % u64_mod ≡ (t.block_count + n.blocks) % u64_mod)
    × (t'.p2p_announced_txs % u64_mod ≡ (t.p2p_announced_txs + n.announcements) % u64_mod)
    × (t'.p2p_imported_txs % u64_mod ≡ (t.p2p_imported_txs + n.imports) % u64_mod)

-- Whatever calls are made, in any order, each of the four counters ends at its value before plus the
-- number of the calls that it counts, modulo 2^64.
pub record_events-Counts :
    (events : List Event) (t : RuntimeTelemetry) → Counts t (tally events) (record_events events t)
unfolding record_events record_event tally
record_events-Counts [] t = omega arith
record_events-Counts (backfill n ∷ events) t =
    record_events-Counts events (record_event (backfill n) t)
record_events-Counts (pending ∷ events) t =
    omega (arith, record_events-Counts events (record_event pending t))
record_events-Counts (block n g ∷ events) t =
    omega (arith, record_events-Counts events (record_event (block n g) t))
record_events-Counts (peers n ∷ events) t = record_events-Counts events (record_event (peers n) t)
record_events-Counts (announcement ∷ events) t =
    omega (arith, record_events-Counts events (record_event announcement t))
record_events-Counts (import_ ∷ events) t =
    omega (arith, record_events-Counts events (record_event import_ t))
