-- ===== src/Prelude/Ends.antt =====
-- The first and the last entries of a list.
use native.Mathlib.Decide.{dec_le}
use Prim.Native.Nat.{ℕ, zero, suc, ◌-◌, ◌≤◌, min}
use mathlib.Core.Path.{◌≡◌, refl, sym, ap, ◌∙◌}
use mathlib.Core.List.{List, [], ◌∷◌, ◌++◌, reverse, reverse-append, reverse-reverse}
use native.Mathlib.Omega.{arith}
use bulkmail.Prelude.Lists.{length, take, drop, length-append, length-drop}

module _ {ℓ} {A : Type ℓ} where
  pub take-all : (n : ℕ) (xs : List A) → length xs ≤ n → take n xs ≡ xs
  take-all zero [] h = refl
  take-all zero (x ∷ xs) h = absurd (omega (arith, h))
  take-all (suc n) [] h = refl
  take-all (suc n) (x ∷ xs) h = ap (λ t. x ∷ t) (take-all n xs (omega (arith, h)))

  pub take-min : (n : ℕ) (xs : List A) → take n xs ≡ take (min n (length xs)) xs
  take-min zero xs = let less : 0 ≡ min 0 (length xs) = omega arith in ap (λ k. take k xs) less
  take-min (suc n) [] =
      let less : 0 ≡ min (suc n) 0 = omega arith in
      let empty : List A = [] in ap (λ k. take k empty) less
  take-min (suc n) (x ∷ xs) =
      let less : min (suc n) (length (x ∷ xs)) ≡ suc (min n (length xs)) = omega arith in
      ap (λ t. x ∷ t) (take-min n xs) ∙ ap (λ k. take k (x ∷ xs)) (sym less)

  pub length-reverse : (xs : List A) → length (reverse xs) ≡ length xs
  length-reverse [] = refl
  length-reverse (x ∷ xs) =
      ap length (reverse-append (x ∷ []) xs)
      ∙ omega (arith, length-append (reverse xs) (x ∷ []), length-reverse xs)

  pub take-append : (n : ℕ) (xs ys : List A) → length xs ≡ n → take n (xs ++ ys) ≡ xs
  take-append zero [] ys h = refl
  take-append zero (x ∷ xs) ys h = absurd (omega (arith, h))
  take-append (suc n) [] ys h = absurd (omega (arith, h))
  take-append (suc n) (x ∷ xs) ys h = ap (λ t. x ∷ t) (take-append n xs ys (omega (arith, h)))

  pub append-take-drop : (n : ℕ) (xs : List A) → take n xs ++ drop n xs ≡ xs
  append-take-drop zero xs = refl
  append-take-drop (suc n) [] = refl
  append-take-drop (suc n) (x ∷ xs) = ap (λ t. x ∷ t) (append-take-drop n xs)

  -- The last entries of a list, as the iterators take them.
  pub reverse-take-reverse :
      (n : ℕ) (xs : List A) → reverse (take n (reverse xs)) ≡ drop (length xs - n) xs
  reverse-take-reverse n xs = elim (dec_le n (length xs)) [
    | yes few ↦
        let k = length xs - n in
        let back = drop k xs in
        let split : reverse xs ≡ reverse back ++ reverse (take k xs) =
          ap reverse (sym (append-take-drop k xs)) ∙ reverse-append (take k xs) back in
        let size : length (reverse back) ≡ n =
          omega (arith, length-reverse back, length-drop k xs, few) in
        ap (λ t. reverse (take n t)) split
        ∙ ap reverse (take-append n (reverse back) (reverse (take k xs)) size)
        ∙ reverse-reverse back
    | no many ↦
        let none_left : length xs - n ≡ 0 = omega (arith, many) in
        ap reverse (take-all n (reverse xs) (omega (arith, length-reverse xs, many)))
        ∙ reverse-reverse xs
        ∙ ap (λ k. drop k xs) (sym none_left)
  ]
