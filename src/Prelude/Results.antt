-- ===== src/Prelude/Results.antt =====
-- `Result<T, E>`, for fallible code.
pub data Result {ℓ κ} (E : Type κ) (A : Type ℓ) : Type (ℓ ⊔ κ) where
  ok : A → Result E A
  err : E → Result E A
