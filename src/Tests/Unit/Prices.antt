-- ===== src/Tests/Unit/Prices.antt =====
-- The unit tests of crates/bulkmail/src/gas_price.rs. Durations are nanoseconds.
use bulkmail.Prelude.{
  ℕ, zero, suc, ◌+◌, ◌*◌, ◌≡◌, refl, ltb, leb, ◌==◌, ◌&&◌, Bool, true, false, some, length,
  get_elem?, ok, err,
}
use bulkmail.Message.{max_priority}
use bulkmail.GasPrice.{
  GasPriceManager, new, get_gas_price, percent, update_on_confirmation, initial_base_fee,
  max_priority_fee, confirmation_time_window,
}
use bulkmail.Cli.App.{last}
use bulkmail.Tests.Unit.{same}

-- A test of the price for a priority, which fails if there is none.
abbrev priced : GasPriceManager → ℕ → (ℕ → ℕ → Bool) → Bool
priced m priority test = elim (get_gas_price m priority) [
  | ok (base_fee, priority_fee) ↦ test base_fee priority_fee
  | err why ↦ false
]

-- The loops of the tests.
abbrev updated : ℕ → ℕ → GasPriceManager → GasPriceManager
updated zero time m = m
updated (suc n) time m = updated n time (update_on_confirmation m time 1_000_000_000)

abbrev recorded : ℕ → ℕ → GasPriceManager → GasPriceManager
recorded zero i m = m
recorded (suc n) i m =
    recorded n (i + 1) (update_on_confirmation m (i * 1_000_000_000) 1_000_000_000)

abbrev test_initial_gas_price : Bool
test_initial_gas_price =
    priced new 0
      (λ base_fee priority_fee. base_fee == initial_base_fee && priority_fee == 2_000_000_000)

test_initial_gas_price_passes : test_initial_gas_price ≡ true
unfolding new get_gas_price percent
test_initial_gas_price_passes = refl

abbrev test_priority_influence : Bool
test_priority_influence =
    priced new 1
      (λ _ priority_fee_1. priced new 5 (λ _ priority_fee_5. ltb priority_fee_1 priority_fee_5))

test_priority_influence_passes : test_priority_influence ≡ true
unfolding new get_gas_price percent
test_priority_influence_passes = refl

abbrev test_max_priority_fee : Bool
test_max_priority_fee = priced new max_priority (λ _ priority_fee.
    leb priority_fee max_priority_fee
    && priced new (max_priority + 100) (λ _ priority_fee2. priority_fee == priority_fee2))

test_max_priority_fee_passes : test_max_priority_fee ≡ true
unfolding new get_gas_price percent
test_max_priority_fee_passes = refl

abbrev test_congestion_levels : Bool
test_congestion_levels =
    let busy_low = updated 10 10_000_000_000 new in
    let busy_medium = updated 10 30_000_000_000 busy_low in
    let busy_high = updated 10 70_000_000_000 busy_medium in
    priced busy_low 1 (λ _ priority_fee_low. priced busy_medium 1 (λ _ priority_fee_medium.
      priced busy_high 1 (λ _ priority_fee_high.
        ltb priority_fee_low priority_fee_medium && ltb priority_fee_medium priority_fee_high)))

test_congestion_levels_passes : test_congestion_levels ≡ true
unfolding new get_gas_price percent update_on_confirmation
test_congestion_levels_passes = refl

abbrev test_update_on_confirmation : Bool
test_update_on_confirmation =
    let m : GasPriceManager = new in
    ltb m.priority_fee (update_on_confirmation m 30_000_000_000 2_000_000_000).priority_fee

test_update_on_confirmation_passes : test_update_on_confirmation ≡ true
unfolding new update_on_confirmation
test_update_on_confirmation_passes = refl

abbrev test_confirmation_time_window : Bool
test_confirmation_time_window =
    let times = (recorded (confirmation_time_window + 1) 0 new).confirmation_times in
    length times == confirmation_time_window
    && same (get_elem? times 0) (some 1_000_000_000)
    && same (last times) (some (confirmation_time_window * 1_000_000_000))

test_confirmation_time_window_passes : test_confirmation_time_window ≡ true
unfolding new update_on_confirmation
test_confirmation_time_window_passes = refl
