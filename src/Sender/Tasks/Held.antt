-- ===== src/Sender/Tasks/Held.antt =====
-- crates/bulkmail/src/sender.rs with crates/bulkmail/src/nonce_manager.rs: what the tasks hold of
-- the nonces.
use bulkmail.Prelude.{
  ℕ, suc, ◌+◌, ◌≤◌, ◌<◌, ◌≡◌, ◌≢◌, sym, ◌∙◌, ◌⊎◌, inl, inr, List, [], ◌∷◌, ◌++◌, true, arith, All,
  All-split, All-insert, All-mono, length, length-append,
}
use bulkmail.NonceManager.{
  NonceState, get_next_available_nonce, mark_nonce_available, update_current_nonce,
}
use bulkmail.NonceManager.InFlight.{contains}
use bulkmail.NonceManager.Next.{
  HasRoom, get_next_available_nonce-least, get_next_available_nonce-reserves,
}
use bulkmail.NonceManager.Valid.{IsValid, update_current_nonce_lem, mark_nonce_available_lem}
use bulkmail.Sender.Tasks.{Task, System}

-- The nonce of a task is below the confirmed one, or reserved.
abbrev pub Holds : NonceState → Task → Type 0
Holds st t = (t.nonce < st.current) ⊎ (contains t.nonce st.in_flight ≡ true)

abbrev pub Differ : Task → Task → Type 0
Differ t u = u.nonce ≢ t.nonce

-- Pairwise different nonces.
abbrev pub Apart : List Task → Type 0
Apart [] = Unit {0}
Apart (t ∷ ts) = All (Differ t) ts × Apart ts

-- The replacements of a task do not outnumber its retries.
abbrev pub Counts : Task → Type 0
Counts t = t.replacement_count ≤ t.msg.retry_count

pub Apart-split :
    (xs : List Task) (t : Task) (ys : List Task)
    → Apart (xs ++ t ∷ ys)
    → All (Differ t) (xs ++ ys) × Apart (xs ++ ys)
Apart-split [] t ys h = h
Apart-split (x ∷ xs) t ys h =
    let (d, a) = Apart-split xs t ys h.1 in
    let (e, b) = All-split (Differ x) xs t ys h.0 in (((λ q. e (sym q)), d), (b, a))

-- A task that keeps its nonce stays apart.
pub Apart-change :
    (xs : List Task) (t u : Task) (ys : List Task)
    → u.nonce ≡ t.nonce
    → Apart (xs ++ t ∷ ys)
    → Apart (xs ++ u ∷ ys)
Apart-change [] t u ys e h = (All-mono (Differ t) (Differ u) ys (λ a d. ground arith) h.0, h.1)
Apart-change (x ∷ xs) t u ys e h =
    let (d, b) = All-split (Differ x) xs t ys h.0 in
    (All-insert (Differ x) xs u ys (λ q. d (sym e ∙ q)) b, Apart-change xs t u ys e h.1)

pub record Inv (s : System) : Type 0 where
  pub valid : IsValid s.nonces
  pub held : All (Holds s.nonces) s.tasks
  pub apart : Apart s.tasks
  pub counts : All Counts s.tasks
  pub permitted : s.permits + length s.tasks ≡ 16

pub Holds-next : (st : NonceState) (t : Task) → Holds st t → Holds (get_next_available_nonce st).0 t
Holds-next st t h = let r = get_next_available_nonce-reserves st t.nonce in ground arith

pub fresh_of_Holds :
    (st : NonceState) (t : Task)
    → HasRoom st
    → Holds st t
    → t.nonce ≢ (get_next_available_nonce st).1
fresh_of_Holds st t h (inl below) e = omega (arith, (get_next_available_nonce-least st h).1)
fresh_of_Holds st t h (inr held) e =
    let free = (get_next_available_nonce-least st h).0 in
    let taken : contains (get_next_available_nonce st).1 st.in_flight ≡ true = rw (← e) held in cc

pub Holds-release :
    (st : NonceState) (n : ℕ) (t : Task)
    → IsValid st
    → t.nonce ≢ n
    → Holds st t
    → Holds (mark_nonce_available st n) t
Holds-release st n t v d h = let r = mark_nonce_available_lem st n t.nonce v in ground arith

pub Holds-update :
    (st : NonceState) (n : ℕ) (t : Task)
    → IsValid st
    → Holds st t
    → Holds (update_current_nonce st n) t
Holds-update st n t v h = let r = update_current_nonce_lem st n t.nonce v in ground arith

pub length-split :
    (xs : List Task) (t : Task) (ys : List Task) → length (xs ++ t ∷ ys) ≡ suc (length (xs ++ ys))
length-split xs t ys = omega (arith, length-append xs (t ∷ ys), length-append xs ys)
