-- ===== src/GasPrice/Fee.antt =====
-- crates/bulkmail/src/gas_price.rs: bounds of the priority fee and its growth with the priority.
use bulkmail.Prelude.{ℕ, ◌+◌, ◌*◌, ◌/◌, ◌%◌, ◌≤◌, ◌<◌, ◌≡◌, min, max, ap, arith, u128_mod}
use native.Mathlib.Nat.{le_trans, mul-le-mul, mod-eq_of_lt}
use bulkmail.Message.{max_priority}
use bulkmail.GasPrice.{
  GasPriceManager, CongestionLevel, multiplier, percent, calculate_priority_fee,
  analyze_network_congestion, max_priority_fee, update_on_confirmation,
}
use bulkmail.GasPrice.Percent.{percent_mono, percent_bounds}

-- The most that a fee can be after the two bumps of the retry strategy, from the cap.
abbrev pub fee_limit : ℕ
fee_limit = 144_000_000_000

-- The running estimate is at most the greatest fee that is ever paid.
abbrev pub IsBounded : GasPriceManager → Type 0
IsBounded g = g.priority_fee ≤ fee_limit

pub multiplier_bounds : (c : CongestionLevel) → (1 ≤ multiplier c) × (multiplier c ≤ 3)
unfolding multiplier
multiplier_bounds c = ground arith

product_bounds :
    (f c q : ℕ) → f ≤ fee_limit → c ≤ 3 → q ≤ 100 → f * c * (100 + q) ≤ 86_400_000_000_000
product_bounds f c q hf hc hq =
    le_trans (mul-le-mul {m₂ = 200} (mul-le-mul hf hc) (omega arith)) (omega arith)

no_wrap :
    (f c q : ℕ)
    → f ≤ fee_limit
    → c ≤ 3
    → q ≤ 100
    → f * c % u128_mod * ((100 + q) % u128_mod) % u128_mod ≡ f * c * (100 + q)
no_wrap f c q hf hc hq =
    rw
      (
        mod-eq_of_lt (lt_of_small (f * c) (le_trans (mul-le-mul hf hc) (omega arith))),
        mod-eq_of_lt (lt_of_small (100 + q) (omega arith)),
      )
      (mod-eq_of_lt (lt_of_small (f * c * (100 + q)) (product_bounds f c q hf hc hq)))
  where
    lt_of_small : (n : ℕ) → n ≤ 86_400_000_000_000 → n < u128_mod
    lt_of_small n h = omega arith

-- Where the estimate is bounded nothing wraps, and the fee is the estimate times the congestion
-- multiplier, raised by the message's percentage and capped.
pub calculate_priority_fee_lem :
    (g : GasPriceManager) (p : ℕ)
    → IsBounded g
    → calculate_priority_fee g p
      ≡ min
          (g.priority_fee
            * multiplier (analyze_network_congestion g)
            * (100 + percent (min p max_priority) max_priority)
            / 100)
          max_priority_fee
unfolding calculate_priority_fee
calculate_priority_fee_lem g p b =
    ap (λ n. min (n / 100) max_priority_fee)
      (no_wrap g.priority_fee (multiplier (analyze_network_congestion g))
        (percent (min p max_priority) max_priority) b
        (multiplier_bounds (analyze_network_congestion g)).1
        (omega (arith, percent_bounds (min p max_priority) (omega arith))))

fee_of_mono :
    (f c q r : ℕ)
    → q ≤ r
    → min (f * c * (100 + q) / 100) max_priority_fee
      ≤ min (f * c * (100 + r) / 100) max_priority_fee
fee_of_mono f c q r h = grind arith

-- Where the estimate is bounded, a message of higher priority never pays a lower fee.
pub calculate_priority_fee_mono :
    (g : GasPriceManager) (p q : ℕ)
    → IsBounded g
    → p ≤ q
    → calculate_priority_fee g p ≤ calculate_priority_fee g q
calculate_priority_fee_mono g p q b h =
    rw (calculate_priority_fee_lem g p b, calculate_priority_fee_lem g q b)
      (fee_of_mono g.priority_fee (multiplier (analyze_network_congestion g)) _ _
        (percent_mono (min p max_priority) (min q max_priority) (omega arith) (omega arith)))

at_least_base :
    (f c q : ℕ) → 1 ≤ c → min f max_priority_fee ≤ min (f * c * (100 + q) / 100) max_priority_fee
at_least_base f c q h = grind arith

-- Where the estimate is bounded, the fee is at least the running estimate (or the cap, where the estimate is above it).
pub calculate_priority_fee-ge-estimate :
    (g : GasPriceManager) (p : ℕ)
    → IsBounded g
    → min g.priority_fee max_priority_fee ≤ calculate_priority_fee g p
calculate_priority_fee-ge-estimate g p b = rw (calculate_priority_fee_lem g p b) (
    at_least_base g.priority_fee (multiplier (analyze_network_congestion g)) _
      (multiplier_bounds (analyze_network_congestion g)).0)

-- Where the estimate and the fee that was paid are bounded, the new estimate lies between the old one and the fee that was paid, so the bound is kept.
pub update_on_confirmation_between :
    (g : GasPriceManager) (t used : ℕ)
    → IsBounded g
    → used ≤ fee_limit
    → let g' = update_on_confirmation g t used in
      (min g.priority_fee used ≤ g'.priority_fee)
      × (g'.priority_fee ≤ max g.priority_fee used)
      × IsBounded g'
unfolding update_on_confirmation
update_on_confirmation_between g t used b h = (omega arith, omega arith, omega arith)
