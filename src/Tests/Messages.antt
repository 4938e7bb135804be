-- ===== src/Tests/Messages.antt =====
-- crates/bulkmail/src/message.rs at concrete messages.
use bulkmail.Prelude.{ℕ, ◌+◌, ◌-◌, ◌/◌, ◌≤◌, ◌≡◌, ◌⊎◌, refl, false, some, arith}
use bulkmail.Message.{
  effective_priority, deadline_factor, is_expired, block_time_ms, max_priority, boost_for,
  boost_until,
}
use bulkmail.Message.Deadline.{points, deadline_factor_bounds}
use bulkmail.Message.Priority.{IsInRange, effective_priority_sum, effective_priority_mono}
use bulkmail.Tests.{urgent}

urgent-IsInRange : IsInRange urgent 25000
urgent-IsInRange = record {
  clamped = omega arith;
  within_budget = omega arith;
  young = omega arith;
}

urgent_live : is_expired urgent 25000 ≡ false
unfolding is_expired
urgent_live = refl

urgent_live_earlier : is_expired urgent 5000 ≡ false
unfolding is_expired
urgent_live_earlier = refl

effective_priority_sum_example :
    effective_priority urgent 25000
    ≡ 80 + 0 + (25000 - 1000) / block_time_ms + points (deadline_factor urgent 25000)
effective_priority_sum_example = effective_priority_sum urgent 25000 urgent-IsInRange urgent_live

effective_priority_mono_example : effective_priority urgent 5000 ≤ effective_priority urgent 25000
effective_priority_mono_example =
    effective_priority_mono urgent 5000 25000 urgent-IsInRange (omega arith) urgent_live_earlier
      urgent_live

urgent_factor : deadline_factor urgent 25000 ≡ some 92
unfolding deadline_factor boost_until boost_for
urgent_factor = refl

deadline_factor_bounds_example : (◌≡◌ {A = ℕ} 92 0) ⊎ ((42 ≤ 92) × (92 ≤ max_priority))
deadline_factor_bounds_example = deadline_factor_bounds urgent 25000 92 urgent_factor
