-- ===== src/GasPrice/Percent.antt =====
-- crates/bulkmail/src/gas_price.rs: `percent` by evaluation over all capped priorities.
use bulkmail.GasPrice.{percent}
use bulkmail.Prelude.{
  ℕ, zero, suc, ◌+◌, ◌-◌, ◌≤◌, ◌<◌, ◌≡◌, refl, Bool, true, ◌&&◌, ◌||◌, ◌==◌, if◌then◌else◌, arith,
  ==→eq, Bool-cases, inl, inr,
}

-- Whether two functions agree at the arguments from `first` on, `count` of them.
agree_from : (f g : ℕ → ℕ) → ℕ → ℕ → Bool
agree_from f g first zero = true
agree_from f g first (suc count) = f first == g first && agree_from f g (suc first) count

agree_from_lem :
    (f g : ℕ → ℕ) (first count x : ℕ)
    → first ≤ x
    → x < first + count
    → agree_from f g first count ≡ true
    → f x ≡ g x
unfolding agree_from
agree_from_lem f g first zero x low high h = absurd (omega arith)
agree_from_lem f g first (suc count) x low high h = elim (Bool-cases (first == x)) [
  | inl here ↦ rw (← ==→eq first x here) (==→eq _ _ (ground arith))
  | inr later ↦ agree_from_lem f g (suc first) count x (ground arith) (omega arith) (ground arith)
]

-- The three capped priorities at which rounding loses a whole percent.
abbrev pub is_rounded_down : ℕ → Bool
is_rounded_down x = x == 29 || x == 57 || x == 58

-- What is left of a percentage after the rounding.
rounded : ℕ → ℕ
rounded x = if is_rounded_down x then x - 1 else x

percent_table : agree_from (λ x. percent x 100) rounded 0 101 ≡ true
unfolding agree_from percent rounded
percent_table = refl

-- The percentage of a capped priority is that priority, but for 29, 57 and 58, where the division
-- and the product in floating point come out one percent too low.
pub percent_lem : (x : ℕ) → x ≤ 100 → percent x 100 ≡ (if is_rounded_down x then x - 1 else x)
unfolding rounded
percent_lem x h =
    agree_from_lem (λ y. percent y 100) rounded 0 101 x (omega arith) (omega arith) percent_table

pub percent_mono : (x y : ℕ) → x ≤ y → y ≤ 100 → percent x 100 ≤ percent y 100
percent_mono x y h k = ground (arith, percent_lem x, percent_lem y)

pub percent_bounds : (x : ℕ) → x ≤ 100 → (percent x 100 ≤ x) × (x ≤ percent x 100 + 1)
percent_bounds x h = ground (arith, percent_lem x)
