-- ===== src/NonceManager/InFlight.antt =====
-- The standard library's `BTreeSet<u64>` as crates/bulkmail/src/nonce_manager.rs uses it: the
-- entries in ascending order.
use bulkmail.Prelude.{
  ℕ, suc, ◌≤◌, ◌<◌, ◌≡◌, refl, List, [], ◌∷◌, Bool, true, false, ltb, leb, ◌==◌, if◌then◌else◌,
  arith,
}

abbrev pub NonceSet : Type 0
NonceSet = List ℕ

unfoldable pub contains : ℕ → NonceSet → Bool
contains n [] = false
contains n (x ∷ s) = if n == x then true else contains n s

unfoldable pub insert : ℕ → NonceSet → NonceSet
insert n [] = n ∷ []
insert n (x ∷ s) = if ltb n x then n ∷ x ∷ s else if n == x then x ∷ s else x ∷ insert n s

unfoldable pub remove : ℕ → NonceSet → NonceSet
remove n [] = []
remove n (x ∷ s) = if n == x then s else x ∷ remove n s

-- `retain(|&n| n >= new_nonce)`
unfoldable pub retain_from : ℕ → NonceSet → NonceSet
retain_from b [] = []
retain_from b (x ∷ s) = if leb b x then x ∷ retain_from b s else retain_from b s

-- Ascending without repetition, from a lower bound on.
abbrev pub Ascending : ℕ → NonceSet → Type 0
Ascending b [] = Unit {0}
Ascending b (x ∷ s) = (b ≤ x) × Ascending (suc x) s

pub Ascending-mono : (a b : ℕ) (s : NonceSet) → a ≤ b → Ascending b s → Ascending a s
Ascending-mono a b [] h w = tt
Ascending-mono a b (x ∷ s) h w = (omega arith, w.1)

pub contains_below : (n b : ℕ) (s : NonceSet) → Ascending b s → n < b → contains n s ≡ false
unfolding contains
contains_below n b [] w h = refl
contains_below n b (x ∷ s) w h = ground (arith, contains_below n (suc x) s w.1)

pub contains-insert :
    (k n : ℕ) (s : NonceSet) → contains k (insert n s) ≡ (if k == n then true else contains k s)
unfolding contains insert
contains-insert k n [] = refl
contains-insert k n (x ∷ s) = ground (arith, contains-insert k n s)

pub contains-remove :
    (k n b : ℕ) (s : NonceSet)
    → Ascending b s
    → contains k (remove n s) ≡ (if k == n then false else contains k s)
unfolding contains remove
contains-remove k n b [] w = ground arith
contains-remove k n b (x ∷ s) w =
    ground (arith, contains-remove k n (suc x) s w.1, contains_below n (suc x) s w.1)

pub contains-retain_from :
    (k b : ℕ) (s : NonceSet)
    → contains k (retain_from b s) ≡ (if leb b k then contains k s else false)
unfolding contains retain_from
contains-retain_from k b [] = ground arith
contains-retain_from k b (x ∷ s) = ground (arith, contains-retain_from k b s)

pub insert-Ascending : (n b : ℕ) (s : NonceSet) → b ≤ n → Ascending b s → Ascending b (insert n s)
unfolding insert
insert-Ascending n b [] h w = (h, tt)
insert-Ascending n b (x ∷ s) h w = ground (arith, insert-Ascending n (suc x) s)

pub remove-Ascending : (n b : ℕ) (s : NonceSet) → Ascending b s → Ascending b (remove n s)
unfolding remove
remove-Ascending n b [] w = tt
remove-Ascending n b (x ∷ s) w =
    ground (arith, remove-Ascending n (suc x) s, Ascending-mono b (suc x) s)

retain_from-Ascending_same :
    (n b : ℕ) (s : NonceSet) → Ascending b s → Ascending b (retain_from n s)
unfolding retain_from
retain_from-Ascending_same n b [] w = tt
retain_from-Ascending_same n b (x ∷ s) w =
    ground (
      arith,
      retain_from-Ascending_same n (suc x) s w.1,
      Ascending-mono b (suc x) (retain_from n s),
    )

pub retain_from-Ascending : (n b : ℕ) (s : NonceSet) → Ascending b s → Ascending n (retain_from n s)
unfolding retain_from
retain_from-Ascending n b [] w = tt
retain_from-Ascending n b (x ∷ s) w =
    ground
      (arith, retain_from-Ascending n (suc x) s w.1, retain_from-Ascending_same n (suc x) s w.1)

-- Taking out what was just put in gives the set back.
pub remove-insert : (n : ℕ) (s : NonceSet) → contains n s ≡ false → remove n (insert n s) ≡ s
unfolding contains insert remove
remove-insert n [] h = ground arith
remove-insert n (x ∷ s) h = ground (arith, remove-insert n s)

-- The smaller of two lower bounds does not matter.
pub retain_from-retain_from :
    (a b : ℕ) (s : NonceSet) → a ≤ b → retain_from b (retain_from a s) ≡ retain_from b s
unfolding retain_from
retain_from-retain_from a b [] h = refl
retain_from-retain_from a b (x ∷ s) h = ground (arith, retain_from-retain_from a b s h)
