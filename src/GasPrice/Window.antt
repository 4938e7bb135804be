-- ===== src/GasPrice/Window.antt =====
-- crates/bulkmail/src/gas_price.rs: the window of confirmation times, and the congestion read off it.
use bulkmail.Prelude.{
  ℕ, zero, suc, ◌-◌, ◌*◌, ◌≤◌, ◌<◌, ◌≡◌, refl, List, [], ◌∷◌, ◌++◌, length, drop, arith,
  length-append, map, ◌↔◌, ltb, Bool-cases, inl, inr, ltb→lt, ltb→le, ap, ◌∙◌, sym,
}
use mathlib.Core.List.{append_assoc, append-nil}
use native.Mathlib.Nat.{mod-eq_of_lt, div-lt_iff_lt-mul}
use bulkmail.GasPrice.{
  GasPriceManager, low, high, sum, congestion_of, push_sample, update_on_confirmation,
  confirmation_time_window, congestion_threshold_low, congestion_threshold_medium, new,
}

-- The newest ten entries of a history.
abbrev pub newest : List ℕ → List ℕ
newest ts = drop (length ts - confirmation_time_window) ts

drop-append : (n : ℕ) (xs ys : List ℕ) → n ≤ length xs → drop n (xs ++ ys) ≡ drop n xs ++ ys
drop-append zero xs ys h = refl
drop-append (suc n) [] ys h = absurd (omega arith)
drop-append (suc n) (x ∷ xs) ys h = drop-append n xs ys (omega arith)

drop-drop : (n : ℕ) (xs : List ℕ) → drop 1 (drop n xs) ≡ drop (suc n) xs
drop-drop zero xs = refl
drop-drop (suc n) [] = refl
drop-drop (suc n) (x ∷ xs) = drop-drop n xs

length-drop : (n : ℕ) (xs : List ℕ) → length (drop n xs) ≡ length xs - n
length-drop zero xs = omega arith
length-drop (suc n) [] = omega arith
length-drop (suc n) (x ∷ xs) = omega (arith, length-drop n xs)

pub length-newest : (ts : List ℕ) → length (newest ts) ≡ length ts - (length ts - 10)
length-newest ts = length-drop (length ts - 10) ts

newest-snoc : (ts : List ℕ) (t : ℕ) → newest ts ++ t ∷ [] ≡ drop (length ts - 10) (ts ++ t ∷ [])
newest-snoc ts t = sym (drop-append (length ts - 10) ts (t ∷ []) (omega arith))

-- Pushing a sample onto the newest ten of a history gives the newest ten of the longer history.
push_sample-newest : (ts : List ℕ) (t : ℕ) → push_sample (newest ts) t ≡ newest (ts ++ t ∷ [])
unfolding push_sample
push_sample-newest ts t =
    let grown = length-append (newest ts) (t ∷ []) in
    let longer = length-append ts (t ∷ []) in
    elim (Bool-cases (ltb confirmation_time_window (length (newest ts ++ t ∷ [])))) [
      | inl full ↦
          rw (full, newest-snoc ts t, drop-drop)
            (ap (λ k. drop k (ts ++ t ∷ [])) {x = suc (length ts - 10)}
              (omega (arith, ltb→lt _ _ full, grown, longer, length-newest ts)))
      | inr room ↦
          rw (room, newest-snoc ts t)
            (ap (λ k. drop k (ts ++ t ∷ [])) {x = length ts - 10}
              (omega (arith, ltb→le _ _ room, grown, longer, length-newest ts)))
    ]

-- A history of confirmations: the time each took and the fee it paid.
unfoldable pub record_all : GasPriceManager → List (ℕ × ℕ) → GasPriceManager
record_all g [] = g
record_all g ((t, used) ∷ h) = record_all (update_on_confirmation g t used) h

record_all-newest :
    (g : GasPriceManager) (ts : List ℕ) (h : List (ℕ × ℕ))
    → g.confirmation_times ≡ newest ts
    → (record_all g h).confirmation_times ≡ newest (ts ++ map (λ e. e.0) h)
unfolding record_all update_on_confirmation
record_all-newest g ts [] e = rw append-nil e
record_all-newest g ts ((t, used) ∷ h) e =
    record_all-newest (update_on_confirmation g t used) (ts ++ t ∷ []) h
      (ap (λ w. push_sample w t) e ∙ push_sample-newest ts t)
    ∙ ap newest (append_assoc ts (t ∷ []) (map (λ e. e.0) h))

-- After any history of confirmations the window holds exactly the times of the newest ten, oldest
-- first.
pub record_all-window :
    (h : List (ℕ × ℕ)) → (record_all new h).confirmation_times ≡ newest (map (λ e. e.0) h)
unfolding new
record_all-window h = record_all-newest new [] h refl

-- A window that has samples, fewer than 2^32, is of low congestion exactly when they average below 15 seconds, and
-- of high congestion exactly when they average 60 seconds or more.
pub congestion_of_average :
    (t : ℕ) (ts : List ℕ)
    → length (t ∷ ts) < 4294967296
    → ((congestion_of (t ∷ ts) ≡ low) ↔ (sum (t ∷ ts) < congestion_threshold_low * length (t ∷ ts)))
      × ((congestion_of (t ∷ ts) ≡ high)
          ↔ (congestion_threshold_medium * length (t ∷ ts) ≤ sum (t ∷ ts)))
unfolding congestion_of
congestion_of_average t ts h =
    let n : ℕ = length (t ∷ ts) in
    let below_low =
      div-lt_iff_lt-mul {k = n} {x = sum (t ∷ ts)} {y = congestion_threshold_low} (omega arith) in
    let below_medium =
      div-lt_iff_lt-mul {k = n} {x = sum (t ∷ ts)} {y = congestion_threshold_medium}
        (omega arith) in
    let exact = mod-eq_of_lt h in
    ((λ e. ground arith, λ e. ground arith), (λ e. ground arith, λ e. ground arith))
