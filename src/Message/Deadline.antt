-- ===== src/Message/Deadline.antt =====
-- crates/bulkmail/src/message.rs: the deadline boost and expiry.
use bulkmail.Prelude.{
  ℕ, ◌-◌, ◌/◌, ◌≤◌, ◌<◌, ◌≡◌, ◌↔◌, ◌⊎◌, true, false, Option, none, some, arith, inl, inr,
  Option-cases, add_u64,
}
use bulkmail.Message.{
  Message, boost_for, boost_until, deadline_factor, is_expired, max_priority, block_time_ms,
}

-- A boost as a number: no boost counts as 0.
abbrev pub points : Option ℕ → ℕ
points none = 0
points (some x) = x

-- Every boost lies between 42 and 100.
pub boost_for_bounds : (b x : ℕ) → boost_for b ≡ some x → (42 ≤ x) × (x ≤ max_priority)
unfolding boost_for
boost_for_bounds b x h = ground arith

pub boost_for_antitone : (a b : ℕ) → a ≤ b → points (boost_for b) ≤ points (boost_for a)
unfolding boost_for
boost_for_antitone a b h = ground arith

boost_until_bounds :
    (d now x : ℕ) → boost_until d now ≡ some x → (x ≡ 0) ⊎ ((42 ≤ x) × (x ≤ max_priority))
unfolding boost_until
boost_until_bounds d now x h = ground (arith, boost_for_bounds ((d - now) / block_time_ms) x)

-- A boost that is given is 0 or lies between 42 and 100.
pub deadline_factor_bounds :
    (m : Message) (now x : ℕ)
    → deadline_factor m now ≡ some x
    → (x ≡ 0) ⊎ ((42 ≤ x) × (x ≤ max_priority))
unfolding deadline_factor
deadline_factor_bounds m now x h = elim (Option-cases m.deadline_ms) [
  | inl e ↦ ground arith
  | inr (d, e) ↦ ground (arith, boost_until_bounds (add_u64 m.created_at_ms d) now x)
]

boost_until_zero : (d now : ℕ) → (boost_until d now ≡ some 0) ↔ (d ≤ now)
unfolding boost_until
boost_until_zero d now =
    (λ h. ground (arith, boost_for_bounds ((d - now) / block_time_ms) 0), λ h. ground arith)

-- The two tests of a deadline agree: a message is expired exactly when its deadline factor is
-- `Some(0)`.
pub is_expired-iff_zero_factor :
    (m : Message) (now : ℕ) → (is_expired m now ≡ true) ↔ (deadline_factor m now ≡ some 0)
unfolding is_expired deadline_factor
is_expired-iff_zero_factor m now = elim (Option-cases m.deadline_ms) [
  | inl e ↦ (λ h. ground arith, λ h. ground arith)
  | inr (d, e) ↦ (
    λ h. ground (arith, (boost_until_zero (add_u64 m.created_at_ms d) now).1),
    λ h. ground (arith, (boost_until_zero (add_u64 m.created_at_ms d) now).0),
  )
]

boost_until_mono :
    (d now later : ℕ)
    → now ≤ later
    → later < d
    → points (boost_until d now) ≤ points (boost_until d later)
unfolding boost_until
boost_until_mono d now later h k =
    ground (arith, boost_for_antitone ((d - later) / block_time_ms) ((d - now) / block_time_ms))

-- Before the deadline the boost never falls while the deadline draws near.
pub deadline_factor_mono :
    (m : Message) (now later : ℕ)
    → now ≤ later
    → is_expired m later ≡ false
    → points (deadline_factor m now) ≤ points (deadline_factor m later)
unfolding is_expired deadline_factor
deadline_factor_mono m now later h k = elim (Option-cases m.deadline_ms) [
  | inl e ↦ ground arith
  | inr (d, e) ↦ ground (arith, boost_until_mono (add_u64 m.created_at_ms d) now later)
]
