-- ===== src/Message/Priority.antt =====
-- crates/bulkmail/src/message.rs: the effective priority.
use bulkmail.Prelude.{ℕ, ◌+◌, ◌-◌, ◌/◌, ◌≤◌, ◌<◌, ◌≡◌, true, false, arith, inl, inr, Option-cases}
use bulkmail.Message.{
  Message, effective_priority, deadline_factor, is_expired, block_time_ms, max_priority,
  max_retries,
}
use bulkmail.Message.Deadline.{
  points, deadline_factor_bounds, is_expired-iff_zero_factor, deadline_factor_mono,
}

-- The fields are in the range that the constructor and the retry counter keep, and the message is
-- younger than 2^32 - 1000 blocks at `now`, so that the sum fits 32 bits.
pub record IsInRange (m : Message) (now : ℕ) : Type 0 where
  pub clamped : m.priority ≤ max_priority
  pub within_budget : m.retry_count ≤ max_retries
  pub young : (now - m.created_at_ms) / block_time_ms < 4294966296

-- An expired message has effective priority 0.
pub effective_priority_expired :
    (m : Message) (now : ℕ) → is_expired m now ≡ true → effective_priority m now ≡ 0
unfolding effective_priority
effective_priority_expired m now h = ground (arith, (is_expired-iff_zero_factor m now).0 h)

-- Before the deadline, and without overflow, the effective priority is the sum of the base
-- priority, the retries, the age in blocks and the boost.
pub effective_priority_sum :
    (m : Message) (now : ℕ)
    → IsInRange m now
    → is_expired m now ≡ false
    → effective_priority m now
      ≡ m.priority
        + m.retry_count
        + (now - m.created_at_ms) / block_time_ms
        + points (deadline_factor m now)
unfolding effective_priority
effective_priority_sum m now r h = elim (Option-cases (deadline_factor m now)) [
  | inl e ↦ rw (e, effective_priority) (omega arith)
  | inr (x, e) ↦ ground (
    arith,
    r.clamped,
    r.within_budget,
    r.young,
    deadline_factor_bounds m now x e,
    (is_expired-iff_zero_factor m now).1,
  )
]

-- Until it expires, with its fields in range, a message only gains priority: the queue position that a later push would
-- give it is never worse.
pub effective_priority_mono :
    (m : Message) (now later : ℕ)
    → IsInRange m later
    → now ≤ later
    → is_expired m now ≡ false
    → is_expired m later ≡ false
    → effective_priority m now ≤ effective_priority m later
effective_priority_mono m now later r h k l = omega (
  arith,
  effective_priority_sum m now
      (record {
        clamped = r.clamped;
        within_budget = r.within_budget;
        young = omega (arith, r.young);
      })
      k,
  effective_priority_sum m later r l,
  deadline_factor_mono m now later h l,
)
