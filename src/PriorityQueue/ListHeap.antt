-- ===== src/PriorityQueue/ListHeap.antt =====
-- A heap kept as a plain list: the interface of `BinaryHeap` can be met, and tests can run.
use Prim.Native.Nat.{Ordering}
use mathlib.Core.List.{Mem, Perm, mem-cons, not-mem-nil}
use mathlib.Core.List.Perm
use mathlib.Core.Logic.Or
use native.Mathlib.Bridge.{le_prop}
use bulkmail.Prelude.{
  ◌≤◌, ◌≡◌, ◌≢◌, refl, subst, List, [], ◌∷◌, Option, none, some, length, arith, ltb, if◌then◌else◌,
  Bool-cases, inl, inr, ltb→le, ltb→lt,
}
use bulkmail.PriorityQueue.{PrioritizedMessage, cmp, MessageHeap}

abbrev Entries : Type 0
Entries = List PrioritizedMessage

-- The first greatest entry of `x ∷ xs`, and the rest.
unfoldable pub take_max : PrioritizedMessage → Entries → PrioritizedMessage × Entries
take_max x [] = (x, [])
take_max x (y ∷ ys) =
    let (m, rest) = take_max y ys in
    if ltb x.effective_priority m.effective_priority then (m, x ∷ rest) else (x, m ∷ rest)

unfoldable pub pop_max : Entries → Option (PrioritizedMessage × Entries)
pop_max [] = none
pop_max (x ∷ xs) = some (take_max x xs)

take_max-perm :
    (x : PrioritizedMessage) (xs : Entries) → Perm (x ∷ xs) ((take_max x xs).0 ∷ (take_max x xs).1)
unfolding take_max
take_max-perm x [] = Perm.rfl
take_max-perm x (y ∷ ys) =
    let rest = Perm.cons x (take_max-perm y ys) in
    elim (Bool-cases (ltb x.effective_priority (take_max y ys).0.effective_priority)) [
      | inl e ↦ rw e (Perm.trans rest (Perm.swap _ _ _))
      | inr e ↦ rw e rest
    ]

-- `b` does not exceed `m`.
abbrev NotAbove : PrioritizedMessage → PrioritizedMessage → Type 0
NotAbove m b = b.effective_priority ≤ m.effective_priority

take_max_greatest :
    (x : PrioritizedMessage) (xs : Entries) (b : PrioritizedMessage)
    → Mem b (x ∷ xs)
    → NotAbove (take_max x xs).0 b
unfolding take_max
take_max_greatest x [] b m =
    Or.elim le_prop (mem-cons.0 m) (λ e. rw e (omega arith)) (λ n. absurd (not-mem-nil n))
take_max_greatest x (y ∷ ys) b m =
    let tail = take_max_greatest y ys in
    elim (Bool-cases (ltb x.effective_priority (take_max y ys).0.effective_priority)) [
      | inl e ↦ rw e (
          Or.elim le_prop (mem-cons.0 m) (λ (q : b ≡ x). rw q (omega (arith, ltb→lt _ _ e)))
            (λ n. tail b n))
      | inr e ↦ rw e (
          Or.elim le_prop (mem-cons.0 m) (λ (q : b ≡ x). rw q (omega arith))
            (λ n. omega (arith, tail b n, ltb→le _ _ e)))
    ]

pub pop_max-none : (h : Entries) → pop_max h ≡ none → h ≡ []
unfolding pop_max
pop_max-none [] e = refl
pop_max-none (x ∷ xs) e = cc

pub pop_max-some :
    (h : Entries) (a : PrioritizedMessage) (h' : Entries)
    → pop_max h ≡ some (a, h')
    → Perm h (a ∷ h')
unfolding pop_max
pop_max-some [] a h' e = cc
pop_max-some (x ∷ xs) a h' e =
    let r : take_max x xs ≡ (a, h') = ground arith in
    subst (λ p. Perm (x ∷ xs) (p.0 ∷ p.1)) r (take_max-perm x xs)

pub pop_max_greatest :
    (h : Entries) (a : PrioritizedMessage) (h' : Entries)
    → pop_max h ≡ some (a, h')
    → (b : PrioritizedMessage) → Mem b h'
    → cmp b a ≢ Ordering.gt
unfolding pop_max
pop_max_greatest [] a h' e b m = cc
pop_max_greatest (x ∷ xs) a h' e b m =
    let r : take_max x xs ≡ (a, h') = ground arith in
    let all : Mem b (x ∷ xs) =
      (Perm.mem_iff (pop_max-some (x ∷ xs) a h' e)).1 (mem-cons.1 (Or.inr m)) in
    let le : b.effective_priority ≤ a.effective_priority =
      subst (λ p. NotAbove p.0 b) r (take_max_greatest x xs b all) in
    λ g. ground arith

unfoldable pub list_heap : MessageHeap
unfolding pop_max take_max
list_heap = record {
  Carrier = Entries;
  empty = [];
  push = λ a h. a ∷ h;
  pop = pop_max;
  len = length;
  items = λ h. h;
  items-empty = refl;
  items-push = λ a h. Perm.rfl;
  pop-none = pop_max-none;
  pop-some = pop_max-some;
  pop_greatest = pop_max_greatest;
  len-items = λ h. refl;
}
