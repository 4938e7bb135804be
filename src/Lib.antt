-- ===== src/Lib.antt =====
-- bulkmail: a service that sends many transactions from one account, by priority, and the mempool
-- oracle beside it. All paths are from the repository's root.
--
-- The parts, and how they interact:
--
-- - Message (crates/bulkmail/src/message.rs): a transaction intent. `effective_priority` grows with
--   age, retries and the nearness of a deadline. Message/Deadline, Message/Priority, Message/Retry.
-- - PriorityQueue (crates/bulkmail/src/priority_queue.rs): messages by the priority of their push,
--   over the standard library's heap, which is the interface `BinaryHeap` of PriorityQueue/Heap.
--   PriorityQueue/ListHeap is an instance.
-- - NonceManager (crates/bulkmail/src/nonce_manager.rs): the confirmed nonce and the nonces in
--   flight. A method holds the lock from start to end, so that it is a function on the state; the
--   set of nonces is the ascending list of NonceManager/InFlight.
-- - GasPrice (crates/bulkmail/src/gas_price.rs): congestion and priority fee. GasPrice/Float is the
--   binary64 arithmetic of `percent`.
-- - Clock, Error, Chain (crates/bulkmail/src/clock.rs, lib.rs and chain.rs): time, errors, and the
--   interface to the chain. Connection, provider, wallet and system clock are parameters.
-- - Adapter (crates/bulkmail/src/adapter/mod.rs): the traits that the sender uses, as records of
--   operations on a world. Adapter/Ethereum (crates/bulkmail/src/adapter/ethereum.rs) implements
--   them: `eth chain address`, over the nonces, the gas prices and the chain;
--   Adapter/Ethereum/Blocks follows a block subscription through the tasks that forward it.
--   Adapter/Solana (crates/bulkmail/src/adapter/solana.rs) is the Solana one, over its RPC and
--   subscription clients as parameters; the calls that are `todo!()` panic.
-- - Sender (crates/bulkmail/src/sender.rs): `add_message`, `process_message` and its send loop,
--   over any adapter. Sender/Run is the main loop `run` with `process_next_message`, cut at its
--   awaits. Sender/Tasks is the system of concurrent send loops on Ethereum, as steps in any
--   order.
-- - Mempool (crates/mempooloracle/src/lib.rs): the tracker. Mempool/Insert is `insert` with its
--   eviction, Mempool/Block is `apply_block`, Mempool/Query the answers of the handle, and
--   Mempool/Tracker the event loop. The ordered maps are the lists of Mempool/Index and the map
--   of account queues that of Mempool/Queues. Mempool/Insert/Evicted is what an eviction takes
--   out. Mempool/Index/Sorted is the order of the priority queue, and Mempool/Query/Ahead the gas
--   of what is ahead in it.
-- - Runtime (crates/mempooloracle/src/runtime.rs): the telemetry of a tracker. Its runtime, with
--   its drop, is Transport/Rpc/Stopped.
-- - Transport (crates/mempooloracle/src/lib.rs and transport/): what feeds a tracker.
--   Transport/Rpc is the tasks of a connection to a node, a turn of a task being a step, in any
--   order, and Transport/Rpc/Tracked sets them beside the tracker's thread, Transport/Rpc/Heard
--   is the list of events that their inputs amount to, Transport/Rpc/Received what these make of
--   the tracker; Transport/P2p is the tasks of the peer-to-peer network; Transport/Connect is the
--   setup of either. The channel keeps all that was sent, and what of it is unread.
-- - Cli (crates/mempooloracle/examples/cli_tool.rs): the tool over a tracker. Cli/Args is its
--   arguments, Cli/Launch its start, Cli/Simulation the simulated chain, Cli/Snapshot what it
--   reads of a tracker for one screen, Cli/App the screen's state, Cli/Screen what a frame shows,
--   and Cli/Plaintext the output where there is no terminal.
-- - Prelude: names of the libraries, Boolean tests, lists and machine integers. Tests: concrete
--   inputs. Tests/Unit: the unit tests of crates/bulkmail/src, those of
--   crates/bulkmail/tests/adapter_flow.rs, and those of
--   crates/mempooloracle/tests/mempool_oracle.rs that need no network, evaluated on the model.
--
-- Conventions. Machine integers are natural numbers with the wrap-around of a release build written
-- out, and only for operations that can wrap at all on values of their types in memory: the sum of
-- a prepended length and a list's length in `insert` is not reduced. 256-bit values, addresses,
-- hashes and call data are carried and not inspected, but for the two bytes of an address that a row
-- of Cli/Snapshot shows. Durations are nanoseconds. Logging is left
-- out. A stream of blocks is the list of what is still to come.
--
-- Fuel. The search for a free nonce runs on one more than the number of nonces in flight, which is
-- enough since each taken nonce uses up one of them. The send loop runs on `max_retries`, three,
-- which is enough since every pass counts a retry.
--
-- Concurrency. In `process_message` the operations of an adapter may include what other tasks do
-- to the world meanwhile. Theorems on the Ethereum adapter's world as a whole are about one task
-- that runs alone; Sender/Tasks and Sender/Run/Wakeup are about interleavings, and so are
-- Transport/Rpc and Transport/Rpc/Tracked. The answers of a tracker in Cli/Snapshot are an input, so
-- that any events may come between them; `quiet` is the case of none.
--
-- Not modelled: when an aborted task of a dropped runtime ends, which the asynchronous runtime
-- decides; what the client libraries of the chains, the transports and the terminal do, whose
-- answers are inputs; the layout and the styles of the screen in
-- crates/mempooloracle/examples/cli_tool.rs, with the rows of the pane that the layout gives; the
-- other examples, which print what the libraries answer; and `Display` of the types of
-- crates/bulkmail.
pub mod Prelude
pub mod Error
pub mod GasPrice
pub mod NonceManager
pub mod Mempool
pub mod Chain
pub mod Clock
pub mod Adapter
pub mod Sender
pub mod PriorityQueue
pub mod Message
pub mod Runtime
pub mod Transport
pub mod Cli
pub mod Tests
