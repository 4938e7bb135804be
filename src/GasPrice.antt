-- ===== src/GasPrice.antt =====
-- crates/bulkmail/src/gas_price.rs: congestion from recent confirmation times, and the priority fee
-- scaled by it. Durations are nanoseconds; the two locks of the manager guard one field each.
pub mod Float
pub mod Percent
pub mod Fee
pub mod Quoted
pub mod Window
use Float.{of_u32, div, mul, to_int}
use bulkmail.Prelude.{
  ℕ, ◌+◌, ◌*◌, ◌/◌, ◌%◌, min, ltb, if◌then◌else◌, List, [], ◌∷◌, ◌++◌, length, u32_mod, u128_mod,
  drop, Result, ok,
}
use bulkmail.Error.{Error}
use bulkmail.Message.{max_priority}

abbrev pub max_priority_fee : ℕ
max_priority_fee = 100_000_000_000

abbrev pub initial_priority_fee : ℕ
initial_priority_fee = 1_000_000_000

abbrev pub initial_base_fee : ℕ
initial_base_fee = 2_000_000_000

abbrev pub confirmation_time_window : ℕ
confirmation_time_window = 10

abbrev pub congestion_threshold_low : ℕ
congestion_threshold_low = 15_000_000_000

abbrev pub congestion_threshold_medium : ℕ
congestion_threshold_medium = 60_000_000_000

pub data CongestionLevel : Type 0 where
  low medium high : CongestionLevel

-- `u128::from`
unfoldable pub multiplier : CongestionLevel → ℕ
multiplier low = 1
multiplier medium = 2
multiplier high = 3

pub record GasPriceManager : Type 0 where
  pub confirmation_times : List ℕ
  pub priority_fee : ℕ

unfoldable pub new : GasPriceManager
new = record { confirmation_times = []; priority_fee = initial_priority_fee }

-- `((x as f64 / y as f64) * 100.0) as u128`
unfoldable pub percent : ℕ → ℕ → ℕ
unfolding of_u32 div mul to_int
percent x y = to_int (mul (div (of_u32 x) (of_u32 y)) (of_u32 100))

unfoldable pub sum : List ℕ → ℕ
sum [] = 0
sum (t ∷ ts) = t + sum ts

unfoldable pub congestion_of : List ℕ → CongestionLevel
unfolding sum
congestion_of [] = medium
congestion_of (t ∷ ts) =
    let avg_time = sum (t ∷ ts) / (length (t ∷ ts) % u32_mod) in
    if ltb avg_time congestion_threshold_low
    then low
    else if ltb avg_time congestion_threshold_medium
    then medium
    else high

unfoldable pub analyze_network_congestion : GasPriceManager → CongestionLevel
unfolding congestion_of
analyze_network_congestion g = congestion_of g.confirmation_times

unfoldable pub calculate_priority_fee : GasPriceManager → ℕ → ℕ
unfolding analyze_network_congestion multiplier
calculate_priority_fee g priority =
    let priority_multiplier = (100 + percent (min priority max_priority) max_priority) % u128_mod in
    min
      (g.priority_fee
        * multiplier (analyze_network_congestion g)
        % u128_mod
        * priority_multiplier
        % u128_mod
        / 100)
      max_priority_fee

unfoldable pub get_base_fee : GasPriceManager → ℕ
get_base_fee g = initial_base_fee

-- `(base_fee, priority_fee)`; it never fails.
unfoldable pub get_gas_price : GasPriceManager → ℕ → Result Error (ℕ × ℕ)
unfolding get_base_fee calculate_priority_fee
get_gas_price g priority = ok (get_base_fee g, calculate_priority_fee g priority)

-- `push_back`, and `pop_front` if the window is over-full.
unfoldable pub push_sample : List ℕ → ℕ → List ℕ
push_sample ts t =
    let ts' = ts ++ t ∷ [] in if ltb confirmation_time_window (length ts') then drop 1 ts' else ts'

unfoldable pub update_on_confirmation : GasPriceManager → ℕ → ℕ → GasPriceManager
unfolding push_sample
update_on_confirmation g confirmation_time used_priority_fee = record {
  confirmation_times = push_sample g.confirmation_times confirmation_time;
  priority_fee = (g.priority_fee + used_priority_fee) % u128_mod / 2;
}
