-- ===== src/Router.antt =====
-- _cli_impl.py: `ReplicaRouterState`. Each method takes the state, and the reading of the
-- monotonic clock where it takes one, and returns the new state with its result. The methods run
-- under the state's lock, so each is one step. Times are whole milliseconds.
pub mod State
pub mod Binding
pub mod Prune
pub mod Requests
pub mod Claims
pub mod Overrides
pub mod Writes
pub mod Sync
pub mod Limit
pub mod Steps
pub mod Health
pub mod Conflicts
pub mod Admission
pub mod Selection
