-- ===== src/Estimator.antt =====
-- The estimator (app/vmestimator/estimator.go).
pub mod GroupSize
pub mod Bucket
pub mod State
pub mod Tracked
pub mod Invariant
pub mod Shares
pub mod InsertSteps
pub mod TurnSteps
pub mod InsertMany
pub mod Bounds
pub mod Batches
pub mod Refusals
pub mod New
pub mod Resets
pub mod GroupKey
pub mod Placement
pub mod Idle
pub mod Grid
