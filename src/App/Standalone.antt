-- ===== src/App/Standalone.antt =====
-- Standalone mode, app/standalone.go: the device, installing, committing and rolling back, and what
-- these do to the database.
pub mod Device
pub mod Finish
pub mod Restore
pub mod Install
pub mod Outcome
pub mod Ending
pub mod Waiting
