-- ===== src/Mempool/Block/Ranked.antt =====
-- crates/mempooloracle/src/lib.rs: the last part of `apply_block` against `classify_transaction`.
use bulkmail.Prelude.{
  ℕ, zero, suc, ◌≡◌, refl, sym, ◌∙◌, ◌⊎◌, inl, inr, ◌↔◌, List, [], ◌∷◌, true, false, Option, none,
  some, ltb, ◌==◌, arith, Bool-cases,
}
use bulkmail.Mempool.Index.{Key, Keys, insert, contains, contains-insert, descending, same_key}
use bulkmail.Mempool.Queues.{PendingTx, Accounts, slot_at}
use bulkmail.Mempool.{MempoolInner, BlockUpdate, effective_priority_fee}
use bulkmail.Mempool.Insert.{priority_key}
use bulkmail.Mempool.Block.{FloatOps, rank_slots, rank_accounts, apply_block}
use bulkmail.Mempool.Query.{is_blocked, class_of, marketable}

-- The key `j` is that of a transaction in one of the slots that can be included at the base fee: it
-- is marketable, and no slot before it blocks it.
abbrev pub Ranks : ℕ → List (Option PendingTx) → Key → Type 0
Ranks base slots j =
    (i : ℕ) × (tx : PendingTx) × (slot_at slots i ≡ some tx)
    × (is_blocked base i slots ≡ false)
    × (class_of base tx ≡ marketable)
    × (same_key j (priority_key base tx) ≡ true)

-- So in the slots of some account.
abbrev pub RanksIn : ℕ → Accounts → Key → Type 0
RanksIn base [] j = ⊥
RanksIn base ((_, q) ∷ accounts) j = Ranks base q.slots j ⊎ RanksIn base accounts j

pub rank_slots_bound :
    (base : ℕ) (slots : List (Option PendingTx)) (ranked : Keys)
    → rank_slots base true slots ranked ≡ ranked
unfolding rank_slots
rank_slots_bound base [] ranked = refl
rank_slots_bound base (none ∷ slots) ranked = rank_slots_bound base slots ranked
rank_slots_bound base (some tx ∷ slots) ranked = rank_slots_bound base slots ranked

-- Whether a transaction blocks those after it, and its class, are one test.
pub class_cases :
    (base : ℕ) (tx : PendingTx)
    → ((ltb tx.max_fee_per_gas base ≡ false)
        × (ltb 0 (effective_priority_fee base tx) ≡ true)
        × ((effective_priority_fee base tx == 0) ≡ false)
        × (class_of base tx ≡ marketable))
      ⊎ (((slots : List (Option PendingTx)) (ranked : Keys)
            → rank_slots base false (some tx ∷ slots) ranked ≡ ranked)
          × ((slots : List (Option PendingTx)) (n : ℕ)
              → is_blocked base (suc n) (some tx ∷ slots) ≡ true)
          × (class_of base tx ≡ marketable → ⊥))
unfolding rank_slots is_blocked class_of
class_cases base tx = elim (Bool-cases (ltb tx.max_fee_per_gas base)) [
  | inl low ↦ inr (
    (λ slots ranked. rw low (rank_slots_bound base slots ranked)),
    (λ slots n. rw low refl),
    rw low (λ e. cc),
  )
  | inr pays ↦ elim (Bool-cases (ltb 0 (effective_priority_fee base tx))) [
    | inl tips ↦ inl (pays, tips, ground arith, rw pays (ground arith))
    | inr no_tip ↦ inr (
      (λ slots ranked. rw (pays, no_tip) (rank_slots_bound base slots ranked)),
      (λ slots n. ground arith),
      (λ e. ground arith),
    )
  ]
]

pub rank_slots_open :
    (base : ℕ) (tx : PendingTx) (slots : List (Option PendingTx)) (ranked : Keys)
    → ltb tx.max_fee_per_gas base ≡ false
    → ltb 0 (effective_priority_fee base tx) ≡ true
    → rank_slots base false (some tx ∷ slots) ranked
      ≡ rank_slots base false slots (insert descending (priority_key base tx) ranked)
unfolding rank_slots
rank_slots_open base tx slots ranked pays tips = rw (pays, tips) refl

is_blocked_open :
    (base n : ℕ) (tx : PendingTx) (slots : List (Option PendingTx))
    → ltb tx.max_fee_per_gas base ≡ false
    → (effective_priority_fee base tx == 0) ≡ false
    → is_blocked base (suc n) (some tx ∷ slots) ≡ is_blocked base n slots
unfolding is_blocked
is_blocked_open base n tx slots pays tips = rw (pays, tips) refl

-- What ranks in the later slots ranks in all, behind a slot that does not block.
Ranks-later :
    (base : ℕ) (tx : PendingTx) (slots : List (Option PendingTx)) (j : Key)
    → ltb tx.max_fee_per_gas base ≡ false
    → (effective_priority_fee base tx == 0) ≡ false
    → Ranks base slots j
    → Ranks base (some tx ∷ slots) j
unfolding slot_at
Ranks-later base tx slots j pays tips (i, later, at, free, class, key) =
    (suc i, later, at, is_blocked_open base i tx slots pays tips ∙ free, class, key)

rank_slots-Ranks :
    (base : ℕ) (slots : List (Option PendingTx)) (ranked : Keys) (j : Key)
    → contains j (rank_slots base false slots ranked) ≡ true
    → (contains j ranked ≡ true) ⊎ Ranks base slots j
unfolding rank_slots slot_at is_blocked
rank_slots-Ranks base [] ranked j h = inl h
rank_slots-Ranks base (none ∷ slots) ranked j h = inl (rw (← rank_slots_bound base slots ranked) h)
rank_slots-Ranks base (some tx ∷ slots) ranked j h = elim (class_cases base tx) [
  | inr (skipped, _, _) ↦ inl (rw (← skipped slots ranked) h)
  | inl (pays, tips, positive, class) ↦
      elim (rank_slots-Ranks base slots (insert descending (priority_key base tx) ranked) j
        (rw (← rank_slots_open base tx slots ranked pays tips) h)) [
          | inr later ↦ inr (Ranks-later base tx slots j pays positive later)
          | inl old ↦ elim (Bool-cases (same_key j (priority_key base tx))) [
            | inl same ↦ inr (zero, tx, refl, refl, class, same)
            | inr other ↦
                inl (ground (arith, contains-insert descending j (priority_key base tx) ranked))
          ]
        ]
]

rank_slots_keeps :
    (base : ℕ) (slots : List (Option PendingTx)) (ranked : Keys) (j : Key)
    → contains j ranked ≡ true
    → contains j (rank_slots base false slots ranked) ≡ true
unfolding rank_slots
rank_slots_keeps base [] ranked j h = h
rank_slots_keeps base (none ∷ slots) ranked j h = rw (rank_slots_bound base slots ranked) h
rank_slots_keeps base (some tx ∷ slots) ranked j h = elim (class_cases base tx) [
  | inr (skipped, _, _) ↦ rw (skipped slots ranked) h
  | inl (pays, tips, positive, class) ↦ rw (rank_slots_open base tx slots ranked pays tips) (
      rank_slots_keeps base slots (insert descending (priority_key base tx) ranked) j
        (ground (arith, contains-insert descending j (priority_key base tx) ranked)))
]

Ranks-rank_slots :
    (base : ℕ) (slots : List (Option PendingTx)) (ranked : Keys) (j : Key)
    → Ranks base slots j
    → contains j (rank_slots base false slots ranked) ≡ true
unfolding is_blocked slot_at
Ranks-rank_slots base [] ranked j (i, tx, at, free, class, key) = cc
Ranks-rank_slots base (none ∷ slots) ranked j (zero, tx, at, free, class, key) = cc
Ranks-rank_slots base (none ∷ slots) ranked j (suc i, tx, at, free, class, key) = cc
Ranks-rank_slots base (some first ∷ slots) ranked j (zero, tx, at, free, class, key) =
    let e : tx ≡ first = cc in
    elim (class_cases base first) [
      | inr (_, _, refused) ↦ absurd (refused (rw (← e) class))
      | inl (pays, tips, positive, _) ↦ rw (rank_slots_open base first slots ranked pays tips) (
          rank_slots_keeps base slots (insert descending (priority_key base first) ranked) j
            (inserted (priority_key base first) (rw (← e) key)))
    ]
  where
    inserted : (k : Key) → same_key j k ≡ true → contains j (insert descending k ranked) ≡ true
    inserted k same = ground (arith, contains-insert descending j k ranked)
Ranks-rank_slots base (some first ∷ slots) ranked j (suc i, tx, at, free, class, key) =
    elim (class_cases base first) [
      | inr (_, blocks, _) ↦ let stuck = blocks slots i in cc
      | inl (pays, tips, positive, _) ↦ rw (rank_slots_open base first slots ranked pays tips) (
          Ranks-rank_slots base slots (insert descending (priority_key base first) ranked) j
            (i, tx, at, sym (is_blocked_open base i first slots pays positive) ∙ free, class, key))
    ]

rank_accounts-RanksIn :
    (base : ℕ) (accounts : Accounts) (ranked : Keys) (j : Key)
    → contains j (rank_accounts base accounts ranked) ≡ true
    → (contains j ranked ≡ true) ⊎ RanksIn base accounts j
unfolding rank_accounts
rank_accounts-RanksIn base [] ranked j h = inl h
rank_accounts-RanksIn base ((a, q) ∷ accounts) ranked j h =
    elim (rank_accounts-RanksIn base accounts (rank_slots base false q.slots ranked) j h) [
      | inr later ↦ inr (inr later)
      | inl now ↦ elim (rank_slots-Ranks base q.slots ranked j now) [
        | inl old ↦ inl old
        | inr here ↦ inr (inl here)
      ]
    ]

rank_accounts_keeps :
    (base : ℕ) (accounts : Accounts) (ranked : Keys) (j : Key)
    → contains j ranked ≡ true
    → contains j (rank_accounts base accounts ranked) ≡ true
unfolding rank_accounts
rank_accounts_keeps base [] ranked j h = h
rank_accounts_keeps base ((a, q) ∷ accounts) ranked j h =
    rank_accounts_keeps base accounts _ j (rank_slots_keeps base q.slots ranked j h)

RanksIn-rank_accounts :
    (base : ℕ) (accounts : Accounts) (ranked : Keys) (j : Key)
    → RanksIn base accounts j
    → contains j (rank_accounts base accounts ranked) ≡ true
unfolding rank_accounts
RanksIn-rank_accounts base [] ranked j h = absurd h
RanksIn-rank_accounts base ((a, q) ∷ accounts) ranked j (inl here) =
    rank_accounts_keeps base accounts _ j (Ranks-rank_slots base q.slots ranked j here)
RanksIn-rank_accounts base ((a, q) ∷ accounts) ranked j (inr later) =
    RanksIn-rank_accounts base accounts (rank_slots base false q.slots ranked) j later

module _ {F : Type 0} (ops : FloatOps F) where
  -- After a block, whatever the state before, the rebuilt priority queue holds a key exactly when it
  -- is that of a tracked transaction that is marketable at the new base fee and that no slot of the
  -- same sender before it blocks, by the two tests of `classify_transaction`.
  pub apply_block-RanksIn :
      (block : BlockUpdate) (m : MempoolInner F) (j : Key)
      → let m' = apply_block ops block m in
        (contains j m'.priority_queue ≡ true) ↔ RanksIn m'.current_base_fee m'.account_queues j
  unfolding apply_block contains
  apply_block-RanksIn block m j = (
    λ h. elim (rank_accounts-RanksIn _ _ [] j h) [ inl e ↦ cc | inr r ↦ r ],
    λ r. RanksIn-rank_accounts _ _ [] j r,
  )
