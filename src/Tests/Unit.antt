-- ===== src/Tests/Unit.antt =====
-- The unit tests of crates/bulkmail/src, on the model: each is the conjunction of what it asserts, and
-- evaluates to true.
mod Bumps
mod Flows
mod Messages
mod Nonces
mod Prices
mod Queues
mod Senders
mod Tables
mod Trackers
use bulkmail.Prelude.{ℕ, ◌==◌, Bool, true, false, Option, none, some}

-- `assert_eq!` on optional numbers.
abbrev pub same : Option ℕ → Option ℕ → Bool
same none none = true
same none (some b) = false
same (some a) none = false
same (some a) (some b) = a == b

-- `unwrap()` in an assertion, which fails on `None`.
abbrev pub unwrapped : Option ℕ → (ℕ → Bool) → Bool
unwrapped none test = false
unwrapped (some a) test = test a
