-- ===== src/PriorityQueue/Heap.antt =====
-- The standard library's `BinaryHeap` behind its documented behaviour: a multiset from which `pop`
-- takes a greatest entry.
use Prim.Native.Nat.{Ordering}
use mathlib.Core.List.{Mem, Perm}
use bulkmail.Prelude.{ℕ, ◌≡◌, ◌≢◌, List, [], ◌∷◌, Option, none, some, length}

pub record BinaryHeap (A : Type 0) (cmp : A → A → Ordering) : Type 1 where
  pub Carrier : Type 0
  pub empty : Carrier
  pub push : A → Carrier → Carrier
  pub pop : Carrier → Option (A × Carrier)
  pub len : Carrier → ℕ
  -- The entries, in no particular order.
  pub items : Carrier → List A
  pub items-empty : items empty ≡ []
  pub items-push : (a : A) (h : Carrier) → Perm (items (push a h)) (a ∷ items h)
  pub pop-none : (h : Carrier) → pop h ≡ none → items h ≡ []
  pub pop-some :
      (h : Carrier) (a : A) (h' : Carrier) → pop h ≡ some (a, h') → Perm (items h) (a ∷ items h')
  pub pop_greatest :
      (h : Carrier) (a : A) (h' : Carrier)
      → pop h ≡ some (a, h')
      → (b : A) → Mem b (items h')
      → cmp b a ≢ Ordering.gt
  pub len-items : (h : Carrier) → len h ≡ length (items h)
