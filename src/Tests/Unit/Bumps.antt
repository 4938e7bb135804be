-- ===== src/Tests/Unit/Bumps.antt =====
-- The unit tests of crates/bulkmail/src/adapter/ethereum.rs.
use bulkmail.Prelude.{ℕ, ◌≡◌, refl, ltb, ◌==◌, ◌&&◌, Bool, true}
use bulkmail.Adapter.Ethereum.{bump_by_percent}

abbrev test_bump_zero_base : Bool
test_bump_zero_base = bump_by_percent 0 20 == 0

test_bump_zero_base_passes : test_bump_zero_base ≡ true
unfolding bump_by_percent
test_bump_zero_base_passes = refl

abbrev test_bump_twenty_percent : Bool
test_bump_twenty_percent = bump_by_percent 100 20 == 120

test_bump_twenty_percent_passes : test_bump_twenty_percent ≡ true
unfolding bump_by_percent
test_bump_twenty_percent_passes = refl

abbrev test_bump_zero_percent : Bool
test_bump_zero_percent = bump_by_percent 500 0 == 500

test_bump_zero_percent_passes : test_bump_zero_percent ≡ true
unfolding bump_by_percent
test_bump_zero_percent_passes = refl

abbrev test_bump_is_an_increase_not_a_fraction : Bool
test_bump_is_an_increase_not_a_fraction =
    let fee : ℕ = 1_000_000_000 in
    let bumped = bump_by_percent fee 20 in ltb fee bumped && bumped == 1_200_000_000

test_bump_is_an_increase_not_a_fraction_passes : test_bump_is_an_increase_not_a_fraction ≡ true
unfolding bump_by_percent
test_bump_is_an_increase_not_a_fraction_passes = refl
