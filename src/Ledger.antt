-- ===== src/Ledger.antt =====
-- app/projection_store.py and app/projection_scene_store.py: the projection ledger.
pub mod Rows
pub mod Policy
pub mod Process
pub mod Disk
pub mod Expiry
pub mod Admission
pub mod Leases
pub mod Sessions
pub mod Updates
pub mod Keys
pub mod Quota
pub mod Bounds
pub mod Reconcile
pub mod Superseded
pub mod Endings
pub mod Parsing
pub mod Living
pub mod Scenes
pub mod Runs
pub mod Single
pub mod Rates
pub mod Tests
