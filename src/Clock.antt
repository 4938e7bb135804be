-- ===== src/Clock.antt =====
-- crates/bulkmail/src/clock.rs: wall-clock time. What the operating system reports is a parameter.
use bulkmail.Prelude.{ℕ, ◌/◌, ◌%◌, ◌-◌, Option, none, some, add_u64, u64_mod}

-- The system's clocks over the state `W` of the environment: the time since the Unix epoch in
-- nanoseconds (`none` before it), and a monotonic one.
pub record TimeSource (W : Type 0) : Type 0 where
  pub since_epoch : W → Option ℕ × W
  pub monotonic : W → ℕ × W

-- `.unwrap_or_default().as_millis() as u64`
abbrev pub as_millis : Option ℕ → ℕ
as_millis none = 0
as_millis (some ns) = ns / 1_000_000 % u64_mod

module _ {W : Type 0} (t : TimeSource W) where
  -- `SystemClock::now_ms`
  unfoldable pub now_ms : W → ℕ × W
  now_ms w = let (d, w') = t.since_epoch w in (as_millis d, w')

  -- `Instant::now` and `Instant::elapsed`, which saturates.
  unfoldable pub instant : W → ℕ × W
  instant w = t.monotonic w

  unfoldable pub elapsed : ℕ → W → ℕ × W
  elapsed created_at w = let (now, w') = t.monotonic w in (now - created_at, w')

-- The test clock: `ManualClock(AtomicU64)`.
pub record ManualClock : Type 0 where
  pub value : ℕ

unfoldable pub manual : ℕ → ManualClock
manual initial_ms = record { value = initial_ms }

-- An atomic `fetch_add` wraps.
unfoldable pub advance : ManualClock → ℕ → ManualClock
advance c ms = record { value = add_u64 c.value ms }

unfoldable pub set : ManualClock → ℕ → ManualClock
set c ms = record { value = ms }

unfoldable pub manual_now_ms : ManualClock → ℕ
manual_now_ms c = c.value
