-- ===== src/Message.antt =====
-- crates/bulkmail/src/message.rs: a transaction intent, its priority over time, its deadline and
-- its retry budget. Addresses, 256-bit values and call data are carried and never inspected.
pub mod Deadline
pub mod Priority
pub mod Retry
use bulkmail.Prelude.{
  ℕ, ◌+◌, ◌-◌, ◌*◌, ◌/◌, ◌%◌, min, Bool, false, List, Option, none, some, ltb, leb, ◌==◌,
  if◌then◌else◌, u32_mod, add_u64, saturating_add_u32,
}

abbrev pub max_priority : ℕ
max_priority = 100

abbrev pub block_time_ms : ℕ
block_time_ms = 2000

abbrev pub points_per_block : ℕ
points_per_block = 1

abbrev pub max_retries : ℕ
max_retries = 3

abbrev pub deadline_boost_near_blocks : ℕ
deadline_boost_near_blocks = 2

abbrev pub deadline_boost_far_blocks : ℕ
deadline_boost_far_blocks = 10

pub record Message : Type 0 where
  pub to : Option ℕ
  pub value : ℕ
  pub call_data : List ℕ
  pub gas : ℕ
  pub priority : ℕ
  pub deadline_ms : Option ℕ
  pub created_at_ms : ℕ
  pub retry_count : ℕ

unfoldable pub new : Option ℕ → ℕ → ℕ → List ℕ → ℕ → Option ℕ → ℕ → Message
new to gas value call_data priority deadline_ms now_ms = record {
  to = to;
  value = value;
  call_data = call_data;
  gas = gas;
  priority = min priority max_priority;
  deadline_ms = deadline_ms;
  created_at_ms = now_ms;
  retry_count = 0;
}

-- `Message::default()`, at the time that the system clock reads.
unfoldable pub default : ℕ → Message
default now_ms = record {
  to = none;
  value = 0;
  call_data = List.[];
  gas = 0;
  priority = 0;
  deadline_ms = none;
  created_at_ms = now_ms;
  retry_count = 0;
}

-- The boost for a number of whole blocks that remain, in `deadline_factor`.
unfoldable pub boost_for : ℕ → Option ℕ
boost_for remaining_blocks =
    if ltb remaining_blocks deadline_boost_near_blocks
    then some max_priority
    else if ltb remaining_blocks deadline_boost_far_blocks
    then some (
        (max_priority
          - (max_priority - max_priority / 3)
            * (remaining_blocks - deadline_boost_near_blocks)
            / (deadline_boost_far_blocks - deadline_boost_near_blocks))
        % u32_mod)
    else none

unfoldable pub boost_until : ℕ → ℕ → Option ℕ
unfolding boost_for
boost_until abs_deadline_ms now_ms =
    if leb abs_deadline_ms now_ms
    then some 0
    else boost_for ((abs_deadline_ms - now_ms) / block_time_ms)

unfoldable pub deadline_factor : Message → ℕ → Option ℕ
deadline_factor m now_ms = elim m.deadline_ms [
  | none ↦ none
  | some d ↦ boost_until (add_u64 m.created_at_ms d) now_ms
]

-- The age of a message in blocks, as a `u32`; the subtraction saturates at 0.
unfoldable pub age_factor : Message → ℕ → ℕ
age_factor m now_ms =
    ((now_ms - m.created_at_ms) / block_time_ms) % u32_mod * points_per_block % u32_mod

unfoldable pub effective_priority : Message → ℕ → ℕ
unfolding age_factor
effective_priority m now_ms = elim (deadline_factor m now_ms) [
  | none ↦ (m.priority + m.retry_count + age_factor m now_ms + 0) % u32_mod
  | some x ↦ if x == 0 then 0 else (m.priority + m.retry_count + age_factor m now_ms + x) % u32_mod
]

unfoldable pub can_retry : Message → Bool
can_retry m = ltb m.retry_count max_retries

unfoldable pub increment_retry : Message → Message × Bool
unfolding can_retry
increment_retry m =
    let m' = record m { retry_count = saturating_add_u32 m.retry_count 1 } in (m', can_retry m')

unfoldable pub is_expired : Message → ℕ → Bool
is_expired m now_ms = elim m.deadline_ms [
  | none ↦ false
  | some d ↦ leb (add_u64 m.created_at_ms d) now_ms
]
