-- ===== src/GasPrice/Quoted.antt =====
-- crates/bulkmail/src/gas_price.rs: the fee of a message after any history of confirmations, in whole numbers.
use bulkmail.Prelude.{
  ℕ, ◌+◌, ◌-◌, ◌*◌, ◌/◌, ◌%◌, ◌≤◌, ◌≡◌, refl, ap, ◌∙◌, List, [], ◌∷◌, length, map, min, ltb,
  if◌then◌else◌, arith, All,
}
use native.Mathlib.Nat.{mod-eq_of_lt, div-lt_iff_lt-mul}
use bulkmail.GasPrice.{
  GasPriceManager, multiplier, percent, calculate_priority_fee, sum, congestion_of,
  analyze_network_congestion, update_on_confirmation, new,
}
use bulkmail.GasPrice.Fee.{
  calculate_priority_fee_lem, IsBounded, update_on_confirmation_between, fee_limit,
}
use bulkmail.GasPrice.Percent.{percent_lem, is_rounded_down}
use bulkmail.GasPrice.Window.{newest, length-newest, record_all, record_all-window}

-- The running estimate: each fee that is paid is averaged with it, rounded down.
pub estimate : ℕ → List (ℕ × ℕ) → ℕ
estimate n [] = n
estimate n ((t, used) ∷ h) = estimate ((n + used) / 2) h

abbrev total : List ℕ → ℕ
total [] = 0
total (t ∷ ts) = t + total ts

-- What the congestion multiplies by: 2 with no confirmation yet, else by the average of the times.
pub factor : List ℕ → ℕ
factor [] = 2
factor (t ∷ ts) =
    let n : ℕ = length (t ∷ ts) in
    if ltb (total (t ∷ ts)) (15_000_000_000 * n)
    then 1
    else if ltb (total (t ∷ ts)) (60_000_000_000 * n)
    then 2
    else 3

-- The percentage that a priority adds: itself, 100 at most, and one less for 29, 57 and 58.
pub percentage : ℕ → ℕ
percentage p = if is_rounded_down (min p 100) then min p 100 - 1 else min p 100

abbrev pub PaidUpTo : ℕ → ℕ × ℕ → Type 0
PaidUpTo limit e = e.1 ≤ limit

sum-total : (ts : List ℕ) → sum ts ≡ total ts
unfolding sum
sum-total [] = refl
sum-total (t ∷ ts) = ap (λ n. t + n) (sum-total ts)

factor_lem : (ts : List ℕ) → length ts ≤ 10 → multiplier (congestion_of ts) ≡ factor ts
unfolding congestion_of multiplier factor
factor_lem [] h = refl
factor_lem (t ∷ ts) h =
    let n : ℕ = length (t ∷ ts) in
    let low = div-lt_iff_lt-mul {k = n} {x = sum (t ∷ ts)} {y = 15_000_000_000} (omega arith) in
    let medium = div-lt_iff_lt-mul {k = n} {x = sum (t ∷ ts)} {y = 60_000_000_000} (omega arith) in
    let exact : n % 4294967296 ≡ n = mod-eq_of_lt (omega (arith, h)) in
    rw (exact, ← sum-total (t ∷ ts)) (ground arith)

record_all-estimate :
    (g : GasPriceManager) (h : List (ℕ × ℕ))
    → IsBounded g
    → All (PaidUpTo fee_limit) h
    → ((record_all g h).priority_fee ≡ estimate g.priority_fee h) × IsBounded (record_all g h)
unfolding record_all estimate update_on_confirmation
record_all-estimate g [] b a = (refl, b)
record_all-estimate g ((t, used) ∷ h) b a =
    let g' = update_on_confirmation g t used in
    let same : g'.priority_fee ≡ (g.priority_fee + used) / 2 = omega (arith, b, a.0) in
    let (e, b') = record_all-estimate g' h (update_on_confirmation_between g t used b a.0).2 a.1 in
    (e ∙ ap (λ n. estimate n h) same, b')

-- After any history of confirmations whose fees are at most 144 gwei: the fee of a message is the running
-- estimate, which starts at 1 gwei and is averaged with each fee that was paid, times 1, 2 or 3 (by whether the
-- newest ten confirmations took below 15 seconds on average, below 60 seconds, or more; 2 where there is none),
-- raised by the message's priority in percent (100 at most, and one less for 29, 57 and 58), rounded down, and 100
-- gwei at most. No step of it wraps.
pub calculate_priority_fee-record_all :
    (h : List (ℕ × ℕ)) (p : ℕ)
    → All (PaidUpTo fee_limit) h
    → calculate_priority_fee (record_all new h) p
      ≡ min
          (estimate 1_000_000_000 h
            * factor (newest (map (λ e. e.0) h))
            * (100 + percentage p)
            / 100)
          100_000_000_000
unfolding new analyze_network_congestion percentage
calculate_priority_fee-record_all h p a =
    let g = record_all new h in
    let (paid, bounded) = record_all-estimate new h (omega arith) a in
    let level : multiplier (analyze_network_congestion g) ≡ factor (newest (map (λ e. e.0) h)) =
      ap (λ ts. multiplier (congestion_of ts)) (record_all-window h)
      ∙ factor_lem (newest (map (λ e. e.0) h)) (omega (arith, length-newest (map (λ e. e.0) h))) in
    calculate_priority_fee_lem g p bounded
    ∙ ap
        (λ n.
          min
            (n * multiplier (analyze_network_congestion g) * (100 + percent (min p 100) 100) / 100)
            100_000_000_000)
        paid
    ∙ ap
        (λ n.
          min (estimate 1_000_000_000 h * n * (100 + percent (min p 100) 100) / 100)
            100_000_000_000)
        level
    ∙ ap
        (λ n.
          min (estimate 1_000_000_000 h * factor (newest (map (λ e. e.0) h)) * (100 + n) / 100)
            100_000_000_000)
        (percent_lem (min p 100) (omega arith))
