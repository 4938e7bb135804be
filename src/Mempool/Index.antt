-- ===== src/Mempool/Index.antt =====
-- The ordered indexes of crates/mempooloracle/src/lib.rs: `BTreeMap`s from (fee, address, nonce) to
-- nothing, one by ascending and one by descending fee, as lists in their order.
pub mod Sorted
use bulkmail.Prelude.{
  ℕ, ◌≡◌, List, [], ◌∷◌, Bool, true, false, ltb, ◌==◌, ◌&&◌, ◌||◌, if◌then◌else◌, arith, refl,
}

pub record Key : Type 0 where
  pub fee : ℕ
  pub addr : ℕ
  pub nonce : ℕ

abbrev pub Keys : Type 0
Keys = List Key

abbrev pub same_key : Key → Key → Bool
same_key a b = a.fee == b.fee && a.addr == b.addr && a.nonce == b.nonce

-- The order of (address, nonce), for equal fees.
abbrev pub before_at_fee : Key → Key → Bool
before_at_fee a b = ltb a.addr b.addr || a.addr == b.addr && ltb a.nonce b.nonce

-- The order of `base_fee_eligibility`.
abbrev pub ascending : Key → Key → Bool
ascending a b = ltb a.fee b.fee || a.fee == b.fee && before_at_fee a b

-- The order of `priority_queue`, whose fees are in `Reverse`.
abbrev pub descending : Key → Key → Bool
descending a b = ltb b.fee a.fee || a.fee == b.fee && before_at_fee a b

unfoldable pub insert : (Key → Key → Bool) → Key → Keys → Keys
insert before k [] = k ∷ []
insert before k (x ∷ s) =
    if same_key k x then x ∷ s else if before k x then k ∷ x ∷ s else x ∷ insert before k s

unfoldable pub remove : Key → Keys → Keys
remove k [] = []
remove k (x ∷ s) = if same_key k x then s else x ∷ remove k s

unfoldable pub contains : Key → Keys → Bool
contains k [] = false
contains k (x ∷ s) = if same_key k x then true else contains k s

-- `range(..k)`
unfoldable pub range_to : (Key → Key → Bool) → Key → Keys → Keys
range_to before k [] = []
range_to before k (x ∷ s) = if before x k then x ∷ range_to before k s else []

pub contains-insert :
    (before : Key → Key → Bool) (j k : Key) (s : Keys)
    → contains j (insert before k s) ≡ (if same_key j k then true else contains j s)
unfolding contains insert
contains-insert before j k [] = refl
contains-insert before j k (x ∷ s) = ground (arith, contains-insert before j k s)
