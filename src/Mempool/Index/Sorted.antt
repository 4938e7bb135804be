-- ===== src/Mempool/Index/Sorted.antt =====
-- crates/mempooloracle/src/lib.rs: what `priority_queue` is as a `BTreeMap`: its keys, in its order.
use bulkmail.Prelude.{◌≤◌, ◌≡◌, [], ◌∷◌, true, false, arith, All, All-mono, if_either}
use bulkmail.Mempool.Index.{Key, Keys, insert as insert_key, descending, same_key}

abbrev pub Comes : Key → Key → Type 0
Comes k j = descending k j ≡ true

-- Every key comes strictly before the later ones.
abbrev pub Sorted : Keys → Type 0
Sorted [] = Unit {0}
Sorted (k ∷ s) = All (Comes k) s × Sorted s

abbrev pub NotAbove : Key → Key → Type 0
NotAbove k j = j.fee ≤ k.fee

-- No key is above an earlier one.
abbrev pub FeesDescend : Keys → Type 0
FeesDescend [] = Unit {0}
FeesDescend (k ∷ s) = All (NotAbove k) s × FeesDescend s

pub Sorted-FeesDescend : (s : Keys) → Sorted s → FeesDescend s
Sorted-FeesDescend [] d = tt
Sorted-FeesDescend (k ∷ s) d =
    (All-mono (Comes k) (NotAbove k) s (λ a h. ground arith) d.0, Sorted-FeesDescend s d.1)

pub Comes-trans : (a b c : Key) → Comes a b → Comes b c → Comes a c
Comes-trans a b c h k = ground arith

All-insert_key :
    (k j : Key) (s : Keys) → Comes k j → All (Comes k) s → All (Comes k) (insert_key descending j s)
unfolding insert_key
All-insert_key k j [] h a = (h, a)
All-insert_key k j (x ∷ s) h a =
    if_either (All (Comes k)) (same_key j x) (λ _. a)
      (λ _.
        if_either (All (Comes k)) (descending j x) (λ _. (h, a))
          (λ _. (a.0, All-insert_key k j s h a.1)))

-- Of two keys that are not the same, one comes first.
Comes-total : (j x : Key) → same_key j x ≡ false → descending j x ≡ false → Comes x j
Comes-total j x differ below = ground arith

pub insert_key-Sorted : (j : Key) (s : Keys) → Sorted s → Sorted (insert_key descending j s)
unfolding insert_key
insert_key-Sorted j [] d = (tt, d)
insert_key-Sorted j (x ∷ s) d =
    if_either Sorted (same_key j x) (λ _. d)
      (λ differ.
        if_either Sorted (descending j x)
          (λ above. ((above, All-mono (Comes x) (Comes j) s (λ a. Comes-trans j x a above) d.0), d))
          (λ below.
            (All-insert_key x j s (Comes-total j x differ below) d.0, insert_key-Sorted j s d.1)))
