-- ===== src/Tests/Prices.antt =====
-- crates/bulkmail/src/gas_price.rs and the fees of crates/bulkmail/src/adapter/ethereum.rs.
use bulkmail.Prelude.{ℕ, List, ◌+◌, ◌*◌, ◌/◌, ◌≡◌, min, [], ◌∷◌, arith, if◌then◌else◌, ◌-◌}
use bulkmail.GasPrice.{percent, calculate_priority_fee, new}
use bulkmail.GasPrice.Quoted.{estimate, factor, percentage, calculate_priority_fee-record_all}
use bulkmail.GasPrice.Window.{newest, record_all, record_all-window}
use bulkmail.GasPrice.Percent.{is_rounded_down, percent_lem}

abbrev paid : List (ℕ × ℕ)
paid = (4_000_000_000, 3_000_000_000) ∷ (90_000_000_000, 5_000_000_000) ∷ []

calculate_priority_fee-record_all_example :
    calculate_priority_fee (record_all new paid) 57
    ≡ min
        (estimate 1_000_000_000 paid
          * factor (newest (4_000_000_000 ∷ 90_000_000_000 ∷ []))
          * (100 + percentage 57)
          / 100)
        100_000_000_000
calculate_priority_fee-record_all_example = calculate_priority_fee-record_all paid 57 (omega arith)

record_all-window_example :
    (record_all new ((4, 9) ∷ (5, 8) ∷ [])).confirmation_times ≡ newest (4 ∷ 5 ∷ [])
record_all-window_example = record_all-window ((4, 9) ∷ (5, 8) ∷ [])

percent_lem_example : percent 29 100 ≡ (if is_rounded_down 29 then 29 - 1 else 29)
percent_lem_example = percent_lem 29 (omega arith)
