-- ===== src/Chain/Blocks.antt =====
-- crates/bulkmail/src/chain.rs: what the forwarding task passes on.
use Prim.Native.String.{String}
use bulkmail.Prelude.{
  take, ℕ, zero, suc, ◌≡◌, ◌≤◌, refl, ap, List, [], ◌∷◌, length, Result, ok, err, arith,
}
use bulkmail.Chain.{Header, forward}

-- The answers before the first failure.
abbrev pub until_err {ℓ} : {A : Type ℓ} → List (Result String A) → List A
until_err [] = []
until_err (err why ∷ answers) = []
until_err (ok a ∷ answers) = a ∷ until_err answers

pub forward-until_err :
    (room : ℕ) (answers : List (Result String Header))
    → forward room answers ≡ take room (until_err answers)
unfolding forward
forward-until_err zero [] = refl
forward-until_err (suc room) [] = refl
forward-until_err zero (err why ∷ answers) = refl
forward-until_err (suc room) (err why ∷ answers) = refl
forward-until_err zero (ok header ∷ answers) = refl
forward-until_err (suc room) (ok header ∷ answers) =
    ap (λ hs. header ∷ hs) (forward-until_err room answers)

pub take-until_err :
    (room : ℕ) (answers : List (Result String Header))
    → length answers ≤ room
    → take room (until_err answers) ≡ until_err answers
take-until_err zero [] h = refl
take-until_err (suc room) [] h = refl
take-until_err zero (err why ∷ answers) h = refl
take-until_err (suc room) (err why ∷ answers) h = refl
take-until_err zero (ok header ∷ answers) h = absurd (omega arith)
take-until_err (suc room) (ok header ∷ answers) h =
    ap (λ hs. header ∷ hs) (take-until_err room answers (omega arith))
