-- ===== src/Coordinator.antt =====
-- src/cluster/coordinator.rs: the coordinator's state machine. `State` has its data, the modules
-- below it the methods, and the others what holds of them.
pub mod State
pub mod Status
pub mod Workers
pub mod Submit
pub mod Time
pub mod Assign
pub mod Updates
pub mod Cancel
pub mod Calls
pub mod Lifecycle
pub mod Commit
pub mod Slots
pub mod Reports
pub mod Due
pub mod Keeps
pub mod Attempts
pub mod Panics
pub mod Repeated
pub mod Cancelled
pub mod Assignments
pub mod Outputs
pub mod Refused
