-- ===== src/Cli.antt =====
-- crates/mempooloracle/examples/cli_tool.rs: the command-line tool over a tracker.
pub mod Args
pub mod Snapshot
pub mod App
pub mod Screen
pub mod Plaintext
pub mod Simulation
pub mod Launch
