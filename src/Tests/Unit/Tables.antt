-- ===== src/Tests/Unit/Tables.antt =====
-- The table tests of crates/bulkmail/src/message.rs.
use bulkmail.Prelude.{
  ℕ, ◌≡◌, refl, ◌==◌, ◌&&◌, not, List, [], ◌∷◌, Bool, true, false, Option, none, some,
}
use bulkmail.Message.{new, effective_priority, deadline_factor, is_expired, increment_retry}
use bulkmail.Tests.Unit.Messages.{plain, retried}

-- A row of the table of priorities, and the table.
record Case : Type 0 where
  priority : ℕ
  retries : ℕ
  age_ms : ℕ
  expected : ℕ

abbrev priority_cases : List Case
priority_cases =
    record { priority = 0; retries = 0; age_ms = 0; expected = 0 }
    ∷ record { priority = 5; retries = 0; age_ms = 0; expected = 5 }
    ∷ record { priority = 5; retries = 2; age_ms = 0; expected = 7 }
    ∷ record { priority = 5; retries = 0; age_ms = 4000; expected = 7 }
    ∷ record { priority = 5; retries = 1; age_ms = 4000; expected = 8 }
    ∷ []

abbrev check_priorities : List Case → Bool
check_priorities [] = true
check_priorities (c ∷ cases) =
    effective_priority (retried c.retries (plain c.priority none 0)) c.age_ms == c.expected
    && check_priorities cases

abbrev test_effective_priority_table : Bool
test_effective_priority_table = check_priorities priority_cases

test_effective_priority_table_passes : test_effective_priority_table ≡ true
unfolding new effective_priority deadline_factor increment_retry
test_effective_priority_table_passes = refl

record ExpiryCase : Type 0 where
  created_at_ms : ℕ
  deadline_ms : Option ℕ
  now_ms : ℕ
  expected : Bool

abbrev expiry_cases : List ExpiryCase
expiry_cases =
    record { created_at_ms = 0; deadline_ms = none; now_ms = 9999; expected = false }
    ∷ record { created_at_ms = 0; deadline_ms = some 1000; now_ms = 999; expected = false }
    ∷ record { created_at_ms = 0; deadline_ms = some 1000; now_ms = 1000; expected = true }
    ∷ record { created_at_ms = 0; deadline_ms = some 1000; now_ms = 2000; expected = true }
    ∷ record { created_at_ms = 5000; deadline_ms = some 3000; now_ms = 7999; expected = false }
    ∷ record { created_at_ms = 5000; deadline_ms = some 3000; now_ms = 8000; expected = true }
    ∷ []

abbrev agree : Bool → Bool → Bool
agree true b = b
agree false b = not b

abbrev check_expiries : List ExpiryCase → Bool
check_expiries [] = true
check_expiries (c ∷ cases) =
    agree (is_expired (plain 0 c.deadline_ms c.created_at_ms) c.now_ms) c.expected
    && check_expiries cases

abbrev test_is_expired_table : Bool
test_is_expired_table = check_expiries expiry_cases

test_is_expired_table_passes : test_is_expired_table ≡ true
unfolding new is_expired
test_is_expired_table_passes = refl
