-- ===== src/Message/Retry.antt =====
-- crates/bulkmail/src/message.rs: the constructor and the retry budget.
use bulkmail.Prelude.{ℕ, zero, suc, ◌+◌, ◌≤◌, ◌<◌, ◌≡◌, ◌↔◌, refl, true, List, Option, arith}
use bulkmail.Message.{Message, new, can_retry, increment_retry, max_priority, max_retries}

-- A constructed message has its priority clamped to 100 and its whole retry budget.
pub new_fields :
    (to : Option ℕ) (gas value : ℕ) (call_data : List ℕ) (priority : ℕ) (d : Option ℕ) (now : ℕ)
    → let m = new to gas value call_data priority d now in
      (m.priority ≤ max_priority)
      × (priority ≤ max_priority → m.priority ≡ priority)
      × (m.created_at_ms ≡ now)
      × (can_retry m ≡ true)
unfolding new can_retry
new_fields to gas value call_data priority d now = (omega arith, λ h. omega arith, refl, refl)

-- `n` calls of `increment_retry`, one after the other.
unfoldable pub increments : ℕ → Message → Message
increments zero m = m
increments (suc n) m = (increment_retry (increments n m)).0

increments_count :
    (n : ℕ) (m : Message)
    → m.retry_count + n < 4294967296
    → (increments n m).retry_count ≡ m.retry_count + n
unfolding increments increment_retry
increments_count zero m h = omega arith
increments_count (suc n) m h = omega (arith, increments_count n m (omega arith))

-- Unless the 32-bit counter is used up, the call number `n + 1` grants a further retry exactly while fewer than three retries, this one
-- included, have been counted.
pub increment_retry_budget :
    (n : ℕ) (m : Message)
    → m.retry_count + n < 4294967295
    → ((increment_retry (increments n m)).1 ≡ true) ↔ (m.retry_count + n + 1 < max_retries)
unfolding increment_retry
increment_retry_budget n m h = (
  λ k. ground (arith, increments_count n m (omega arith)),
  λ k. ground (arith, increments_count n m (omega arith)),
)
