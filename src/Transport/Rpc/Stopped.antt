-- ===== src/Transport/Rpc/Stopped.antt =====
-- crates/mempooloracle/src/runtime.rs: the runtime of a connection by JSON-RPC, and its drop. How the
-- asynchronous runtime aborts a task is a parameter.
use bulkmail.Prelude.{List, [], ◌∷◌, Bool, true, false}
use bulkmail.Mempool.{MempoolInner}
use bulkmail.Runtime.{RuntimeTelemetry}
use bulkmail.Transport.Rpc.{Tasks}
use bulkmail.Transport.Rpc.Tracked.{System}

-- The handles of the tasks that a connection spawns.
pub data JoinHandle : Type 0 where
  of_blocks of_pending of_backfill : JoinHandle

-- `struct TrackerRuntime`, with what its handle and its telemetry share with the tasks.
pub record TrackerRuntime (F : Type 0) : Type 0 where
  pub shared : System F
  pub shutdown : Bool
  pub tasks : List JoinHandle

abbrev pub default_shutdown_value : Bool
default_shutdown_value = false

-- `TrackerRuntime::new` as a connection calls it.
unfoldable pub new : {F : Type 0} → System F → TrackerRuntime F
new s = record {
  shared = s;
  shutdown = default_shutdown_value;
  tasks = of_blocks ∷ of_pending ∷ of_backfill ∷ [];
}

-- `TrackerTelemetry::snapshot`
unfoldable pub snapshot : {F : Type 0} → TrackerRuntime F → RuntimeTelemetry
snapshot rt = rt.shared.tasks.feed.telemetry

-- `TrackerRuntime::handle`, by the state that it reads.
unfoldable pub handle : {F : Type 0} → TrackerRuntime F → MempoolInner F
handle rt = rt.shared.inner

-- An abort only asks for the end of a task, which comes at its next await: what it makes of the tasks is
-- left open.
module _ (abort : JoinHandle → Tasks → Tasks) where
  unfoldable pub abort_all : List JoinHandle → Tasks → Tasks
  abort_all [] s = s
  abort_all (h ∷ handles) s = abort_all handles (abort h s)

  -- `Drop::drop`
  unfoldable pub drop : {F : Type 0} → TrackerRuntime F → TrackerRuntime F
  unfolding abort_all
  drop rt = record rt {
    shutdown = true;
    shared = record rt.shared { tasks = abort_all rt.tasks rt.shared.tasks };
  }
