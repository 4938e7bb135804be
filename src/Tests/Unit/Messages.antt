-- ===== src/Tests/Unit/Messages.antt =====
-- The unit tests of crates/bulkmail/src/message.rs.
use bulkmail.Prelude.{
  ℕ, zero, suc, ◌+◌, ◌-◌, ◌*◌, ◌/◌, ◌%◌, ◌≡◌, refl, ltb, ◌==◌, ◌&&◌, not, List, [], ◌∷◌, Bool, true,
  Option, none, some, u32_mod, u64_mod,
}
use bulkmail.Message.{
  Message, new, max_priority, block_time_ms, max_retries, deadline_boost_near_blocks,
  deadline_boost_far_blocks, effective_priority, deadline_factor, boost_until, is_expired,
  increment_retry, can_retry,
}
use bulkmail.Clock.{manual, advance, manual_now_ms}
use bulkmail.Tests.Unit.{same, unwrapped}

-- A message of no content.
abbrev pub plain : ℕ → Option ℕ → ℕ → Message
plain priority deadline_ms now_ms = new none 0 0 [] priority deadline_ms now_ms

-- The loops of the tests: some calls of `increment_retry`, and what they answer.
abbrev pub retried : ℕ → Message → Message
retried zero m = m
retried (suc n) m = retried n (increment_retry m).0

abbrev answers : ℕ → Message → List Bool
answers zero m = []
answers (suc n) m = (increment_retry m).1 ∷ answers n (increment_retry m).0

abbrev all_true : List Bool → Bool
all_true [] = true
all_true (b ∷ bs) = b && all_true bs

abbrev test_new_clamps_priority_to_max : Bool
test_new_clamps_priority_to_max = (new none 21000 0 [] 200 none 0).priority == max_priority

test_new_clamps_priority_to_max_passes : test_new_clamps_priority_to_max ≡ true
unfolding new
test_new_clamps_priority_to_max_passes = refl

abbrev test_new_accepts_priority_at_max : Bool
test_new_accepts_priority_at_max =
    (new none 21000 0 [] max_priority none 0).priority == max_priority

test_new_accepts_priority_at_max_passes : test_new_accepts_priority_at_max ≡ true
unfolding new
test_new_accepts_priority_at_max_passes = refl

abbrev test_new_stores_now_ms : Bool
test_new_stores_now_ms = (new none 0 0 [] 0 none 12345).created_at_ms == 12345

test_new_stores_now_ms_passes : test_new_stores_now_ms ≡ true
unfolding new
test_new_stores_now_ms_passes = refl

abbrev test_effective_priority_base : Bool
test_effective_priority_base = effective_priority (plain 5 none 0) 0 == 5

test_effective_priority_base_passes : test_effective_priority_base ≡ true
unfolding new effective_priority deadline_factor
test_effective_priority_base_passes = refl

abbrev test_effective_priority_includes_retry_count : Bool
test_effective_priority_includes_retry_count =
    effective_priority (increment_retry (plain 1 none 0)).0 0 == 2

test_effective_priority_includes_retry_count_passes :
    test_effective_priority_includes_retry_count ≡ true
unfolding new effective_priority deadline_factor increment_retry
test_effective_priority_includes_retry_count_passes = refl

abbrev test_effective_priority_age_factor : Bool
test_effective_priority_age_factor = effective_priority (plain 0 none 0) 4000 == 2

test_effective_priority_age_factor_passes : test_effective_priority_age_factor ≡ true
unfolding new effective_priority deadline_factor
test_effective_priority_age_factor_passes = refl

abbrev test_effective_priority_zero_when_deadline_passed : Bool
test_effective_priority_zero_when_deadline_passed =
    let m = plain 50 (some 1000) 0 in
    effective_priority m 1000 == 0 && effective_priority m 2000 == 0

test_effective_priority_zero_when_deadline_passed_passes :
    test_effective_priority_zero_when_deadline_passed ≡ true
unfolding new effective_priority deadline_factor boost_until
test_effective_priority_zero_when_deadline_passed_passes = refl

abbrev test_deadline_factor_none_when_no_deadline : Bool
test_deadline_factor_none_when_no_deadline = same (deadline_factor (plain 0 none 0) 0) none

test_deadline_factor_none_when_no_deadline_passes :
    test_deadline_factor_none_when_no_deadline ≡ true
unfolding new deadline_factor
test_deadline_factor_none_when_no_deadline_passes = refl

abbrev test_deadline_factor_none_when_far_away : Bool
test_deadline_factor_none_when_far_away =
    let far_ms = deadline_boost_far_blocks * block_time_ms + block_time_ms in
    same (deadline_factor (plain 0 (some (far_ms % u32_mod)) 0) 0) none

test_deadline_factor_none_when_far_away_passes : test_deadline_factor_none_when_far_away ≡ true
unfolding new deadline_factor boost_until
test_deadline_factor_none_when_far_away_passes = refl

abbrev test_deadline_factor_max_when_near : Bool
test_deadline_factor_max_when_near =
    let near_ms = deadline_boost_near_blocks * block_time_ms - 1 in
    same (deadline_factor (plain 0 (some (near_ms % u32_mod)) 0) 0) (some max_priority)

test_deadline_factor_max_when_near_passes : test_deadline_factor_max_when_near ≡ true
unfolding new deadline_factor boost_until
test_deadline_factor_max_when_near_passes = refl

abbrev test_deadline_factor_linear_between_thresholds : Bool
test_deadline_factor_linear_between_thresholds =
    let mid_ms = 6 * block_time_ms in
    unwrapped (deadline_factor (plain 0 (some (mid_ms % u32_mod)) 0) 0)
      (λ factor. ltb (max_priority / 3) factor && ltb factor max_priority)

test_deadline_factor_linear_between_thresholds_passes :
    test_deadline_factor_linear_between_thresholds ≡ true
unfolding new deadline_factor boost_until
test_deadline_factor_linear_between_thresholds_passes = refl

abbrev test_deadline_factor_increases_as_deadline_approaches : Bool
test_deadline_factor_increases_as_deadline_approaches =
    unwrapped (deadline_factor (plain 0 (some (9 * block_time_ms % u32_mod)) 0) 0) (λ boost9.
      unwrapped (deadline_factor (plain 0 (some (3 * block_time_ms % u32_mod)) 0) 0)
        (λ boost3. ltb boost9 boost3))

test_deadline_factor_increases_as_deadline_approaches_passes :
    test_deadline_factor_increases_as_deadline_approaches ≡ true
unfolding new deadline_factor boost_until
test_deadline_factor_increases_as_deadline_approaches_passes = refl

abbrev test_is_expired_with_past_deadline : Bool
test_is_expired_with_past_deadline =
    let m = plain 0 (some 500) 0 in is_expired m 500 && is_expired m 1000

test_is_expired_with_past_deadline_passes : test_is_expired_with_past_deadline ≡ true
unfolding new is_expired
test_is_expired_with_past_deadline_passes = refl

abbrev test_is_not_expired_with_no_deadline : Bool
test_is_not_expired_with_no_deadline = not (is_expired (plain 0 none 0) (u64_mod - 1))

test_is_not_expired_with_no_deadline_passes : test_is_not_expired_with_no_deadline ≡ true
unfolding new is_expired
test_is_not_expired_with_no_deadline_passes = refl

abbrev test_is_not_expired_before_deadline : Bool
test_is_not_expired_before_deadline = not (is_expired (plain 0 (some 1000) 0) 999)

test_is_not_expired_before_deadline_passes : test_is_not_expired_before_deadline ≡ true
unfolding new is_expired
test_is_not_expired_before_deadline_passes = refl

abbrev test_deadline_expiry_with_manual_clock : Bool
test_deadline_expiry_with_manual_clock =
    let clock = manual 1_000_000 in
    let m = plain 0 (some 5000) (manual_now_ms clock) in
    not (is_expired m (manual_now_ms clock)) && is_expired m (manual_now_ms (advance clock 5000))

test_deadline_expiry_with_manual_clock_passes : test_deadline_expiry_with_manual_clock ≡ true
unfolding new is_expired manual advance manual_now_ms
test_deadline_expiry_with_manual_clock_passes = refl

abbrev test_priority_boost_activates_with_manual_clock : Bool
test_priority_boost_activates_with_manual_clock =
    let clock = manual 0 in
    let m = plain 0 (some (20 * block_time_ms % u32_mod)) (manual_now_ms clock) in
    let later = advance clock (15 * block_time_ms) in
    let last = advance later (4 * block_time_ms) in
    same (deadline_factor m (manual_now_ms clock)) none
    && unwrapped (deadline_factor m (manual_now_ms later))
        (λ factor. ltb (max_priority / 3) factor && ltb factor max_priority)
    && same (deadline_factor m (manual_now_ms last)) (some max_priority)

test_priority_boost_activates_with_manual_clock_passes :
    test_priority_boost_activates_with_manual_clock ≡ true
unfolding new deadline_factor boost_until manual advance manual_now_ms
test_priority_boost_activates_with_manual_clock_passes = refl

abbrev test_can_retry_exhausted_after_max_retries : Bool
test_can_retry_exhausted_after_max_retries =
    let m = plain 0 none 0 in can_retry m && not (can_retry (retried max_retries m))

test_can_retry_exhausted_after_max_retries_passes :
    test_can_retry_exhausted_after_max_retries ≡ true
unfolding new increment_retry
test_can_retry_exhausted_after_max_retries_passes = refl

abbrev test_increment_retry_returns_true_while_budget_remains : Bool
test_increment_retry_returns_true_while_budget_remains =
    let m = plain 0 none 0 in
    all_true (answers (max_retries - 1) m) && not (increment_retry (retried (max_retries - 1) m)).1

test_increment_retry_returns_true_while_budget_remains_passes :
    test_increment_retry_returns_true_while_budget_remains ≡ true
unfolding new increment_retry
test_increment_retry_returns_true_while_budget_remains_passes = refl

abbrev test_new_message_fields : Bool
test_new_message_fields =
    let m = new (some 0) 21000 0 [] 1 none 42 in
    m.priority == 1 && m.retry_count == 0 && m.created_at_ms == 42 && m.gas == 21000

test_new_message_fields_passes : test_new_message_fields ≡ true
unfolding new
test_new_message_fields_passes = refl
