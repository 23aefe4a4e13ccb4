-- ===== src/Restore.antt =====
-- internal/controller/etcdsnapshotrestore_controller.go, a module for each group of functions.
-- Logging has no effect on the state and is left out.
pub mod Scope
pub mod PlanSecret
pub mod Machines
pub mod Phases
pub mod Reconcile
pub mod Order
pub mod Applied
pub mod Loops
pub mod Stopped
pub mod Restored
pub mod Joined
pub mod Started
pub mod Missing
pub mod Progress
pub mod Finish
pub mod Reported
pub mod Advances
pub mod Refused
pub mod Frame
pub mod Work
pub mod Normal
pub mod Writes
pub mod Pausing
pub mod Saved
pub mod Reads
pub mod Spec
pub mod Steps
pub mod Refines
pub mod SavedPhase
pub mod History
