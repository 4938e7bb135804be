-- ===== src/Transport/Rpc/Received.antt =====
-- crates/mempooloracle/src/transport/rpc.rs with crates/mempooloracle/src/lib.rs: the state that what the tasks
-- hear brings the tracker to.
use bulkmail.Prelude.{List}
