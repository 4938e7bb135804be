-- ===== src/PriorityQueue/Drain.antt =====
-- crates/bulkmail/src/priority_queue.rs: a queue that is filled and then emptied.
use mathlib.Core.List.{Mem, Perm}
use mathlib.Core.List.Perm
use bulkmail.Prelude.{
  ℕ, zero, suc, ◌≤◌, ◌≡◌, refl, inl, inr, List, [], ◌∷◌, map, none, some, length, arith, ap, subst,
  sym,
}
use bulkmail.Message.{Message}
use bulkmail.PriorityQueue.{
  PrioritizedMessage, MessageHeap, PriorityQueue, prioritized, new, push, pop,
}
use bulkmail.PriorityQueue.Order.{pop-Pops, length-perm}

-- No entry is above an earlier one.
abbrev pub Descending : List PrioritizedMessage → Type 0
Descending [] = Unit {0}
Descending (x ∷ xs) =
    ((b : PrioritizedMessage) → Mem b xs → b.effective_priority ≤ x.effective_priority)
    × Descending xs

nil_of_length : (xs : List PrioritizedMessage) → length xs ≤ 0 → xs ≡ []
nil_of_length [] h = refl
nil_of_length (x ∷ xs) h = absurd (omega arith)

module _ (heap : MessageHeap) where
  unfoldable pub push_all : PriorityQueue heap → List (Message × ℕ) → PriorityQueue heap
  push_all q [] = q
  push_all q ((m, now) ∷ ms) = push heap (push_all q ms) m now

  abbrev pub entries : List (Message × ℕ) → List PrioritizedMessage
  entries = map (λ e. prioritized heap e.0 e.1)

  length-entries : (ms : List (Message × ℕ)) → length (entries ms) ≡ length ms
  length-entries [] = refl
  length-entries (e ∷ ms) = ap suc (length-entries ms)

  -- Up to `n` pops, in their order.
  unfoldable pub drain : ℕ → PriorityQueue heap → List Message
  drain zero q = []
  drain (suc n) q = elim (pop heap q) [ none ↦ [] | some (m, q') ↦ m ∷ drain n q' ]

  -- The messages of a descending arrangement of the entries.
  abbrev pub Arranges : List PrioritizedMessage → List Message → Type 0
  Arranges xs ms =
      (es : List PrioritizedMessage) × (ms ≡ map (λ e. e.message) es) × Perm es xs × Descending es

  drain-Arranges :
      (n : ℕ) (q : PriorityQueue heap)
      → length (heap.items q) ≤ n
      → Arranges (heap.items q) (drain n q)
  unfolding drain
  drain-Arranges zero q h =
      ([], refl, subst (Perm []) (sym (nil_of_length (heap.items q) h)) Perm.nil, tt)
  drain-Arranges (suc n) q h = elim (pop-Pops heap q) [
    | inl (e, r) ↦ ([], rw (r, drain), rw e Perm.nil, tt)
    | inr (pm, q', r, p, top) ↦
        let (es, ms, q, d) = drain-Arranges n q' (omega (arith, length-perm p)) in
        (
          pm ∷ es,
          rw (r, drain) (ap (λ k. pm.message ∷ k) ms),
          Perm.trans (Perm.cons pm q) (Perm.symm p),
          (λ b m. top b ((Perm.mem_iff q).0 m), d),
        )
  ]

  items-push_all :
      (q : PriorityQueue heap) (ms : List (Message × ℕ))
      → heap.items q ≡ []
      → Perm (heap.items (push_all q ms)) (entries ms)
  unfolding push_all push
  items-push_all q [] e = rw e Perm.nil
  items-push_all q ((m, now) ∷ ms) e =
      Perm.trans (heap.items-push _ _) (Perm.cons _ (items-push_all q ms e))

  -- A queue that is filled and then emptied gives back every message once, in descending order of
  -- the effective priorities that they had when they were pushed.
  pub drain-push_all :
      (ms : List (Message × ℕ)) → Arranges (entries ms) (drain (length ms) (push_all (new heap) ms))
  unfolding new
  drain-push_all ms =
      let filled = items-push_all heap.empty ms heap.items-empty in
      let (es, eq, p, d) =
        drain-Arranges (length ms) (push_all heap.empty ms)
          (omega (arith, length-perm filled, length-entries ms)) in
      (es, eq, Perm.trans p filled, d)
