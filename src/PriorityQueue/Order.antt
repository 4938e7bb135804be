-- ===== src/PriorityQueue/Order.antt =====
-- crates/bulkmail/src/priority_queue.rs: what `pop` returns.
use Prim.Native.Nat.{compare, Ordering}
use mathlib.Core.List.{Mem, Perm}
use mathlib.Core.List.Perm
use bulkmail.Prelude.{
  ℕ, suc, ◌≤◌, ◌≡◌, refl, ◌≢◌, ◌⊎◌, inl, inr, ap, sym, ◌∙◌, List, [], ◌∷◌, Option, none, some,
  arith, Option-cases, length,
}
use mathlib.Core.List as Lib
use native.Mathlib.Bridge.{from_ℕ}
use bulkmail.Message.{Message}
use bulkmail.PriorityQueue.{PrioritizedMessage, MessageHeap, PriorityQueue, pop}

le_of_cmp : (a b : ℕ) → compare a b ≢ Ordering.gt → a ≤ b
le_of_cmp a b h = ground arith

-- What `pop` may do with the entries of a queue: fail on the empty queue, or take out an entry that
-- none of the others exceeds.
abbrev pub Pops :
    (heap : MessageHeap) → PriorityQueue heap → Option (Message × PriorityQueue heap) → Type 0
Pops heap q r =
    ((heap.items q ≡ []) × (r ≡ none))
    ⊎ ((pm : PrioritizedMessage) × (q' : PriorityQueue heap) × (r ≡ some (pm.message, q'))
        × Perm (heap.items q) (pm ∷ heap.items q')
        × ((b : PrioritizedMessage)
            → Mem b (heap.items q')
            → b.effective_priority ≤ pm.effective_priority))

module _ (heap : MessageHeap) where
  -- `pop` fails on the empty queue only; otherwise it takes out a message whose effective priority,
  -- as of its push, is the greatest in the queue, and leaves the others.
  pub pop-Pops : (q : PriorityQueue heap) → Pops heap q (pop heap q)
  unfolding pop
  pop-Pops q = elim (Option-cases (heap.pop q)) [
    | inl e ↦ inl (heap.pop-none q e, rw (e, pop))
    | inr ((pm, q'), e) ↦ inr (
      pm,
      q',
      rw (e, pop),
      heap.pop-some q pm q' e,
      λ b m. le_of_cmp _ _ (heap.pop_greatest q pm q' e b m),
    )
  ]

length-native {ℓ} : {A : Type ℓ} (xs : List A) → length xs ≡ from_ℕ (Lib.length xs)
length-native [] = refl
length-native (x ∷ xs) = ap suc (length-native xs)

pub length-perm : {A : Type 0} {xs ys : List A} → Perm xs ys → length xs ≡ length ys
length-perm {xs} {ys} p = length-native xs ∙ ap from_ℕ (Perm.length-eq p) ∙ sym (length-native ys)
