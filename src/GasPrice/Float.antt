-- ===== src/GasPrice/Float.antt =====
-- The `f64` arithmetic that `percent` of crates/bulkmail/src/gas_price.rs uses: IEEE 754 binary64,
-- to nearest, ties to even, on numbers from 0 up to 2^53 whose quotients stay normal. A number is
-- mant / 2^shift.
use bulkmail.Prelude.{ℕ, zero, suc, ◌+◌, ◌*◌, ◌/◌, ◌%◌, ◌^◌, leb, ltb, ◌==◌, if◌then◌else◌}

pub record F64 : Type 0 where
  pub mant : ℕ
  pub shift : ℕ

-- The integer nearest to n / d; a tie goes to the even one.
round_half_even : ℕ → ℕ → ℕ
round_half_even n d =
    let q = n / d in
    let r = n % d in if ltb (2 * r) d then q else if ltb d (2 * r) then q + 1 else q + q % 2

-- The least shift by which num / den has 53 bits before the point, and num so shifted.
scale : ℕ → ℕ → ℕ → ℕ → ℕ × ℕ
scale zero num den shift = (num, shift)
scale (suc fuel) num den shift =
    let rest = scale fuel (num * 2) den (shift + 1) in
    if leb (den * 2 ^ 52) num then (num, shift) else rest

-- The double nearest to num / den. 1074 shifts reach the least exponent of the format.
round_ratio : ℕ → ℕ → F64
unfolding round_half_even scale
round_ratio num den =
    let (num', shift) = scale 1074 num den 0 in
    let nearest : F64 = record { mant = round_half_even num' den; shift = shift } in
    if num == 0 then record { mant = 0; shift = 0 } else nearest

-- Integers below 2^53 are exact.
unfoldable pub of_u32 : ℕ → F64
of_u32 n = record { mant = n; shift = 0 }

unfoldable pub div : F64 → F64 → F64
unfolding round_ratio
div a b = round_ratio (a.mant * 2 ^ b.shift) (b.mant * 2 ^ a.shift)

unfoldable pub mul : F64 → F64 → F64
unfolding round_ratio
mul a b = round_ratio (a.mant * b.mant) (2 ^ (a.shift + b.shift))

-- The cast to an unsigned integer cuts off the fraction.
unfoldable pub to_int : F64 → ℕ
to_int a = a.mant / 2 ^ a.shift
