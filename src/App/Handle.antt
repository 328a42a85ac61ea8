-- ===== src/App/Handle.antt =====
-- The handlers of app/state.go, and `handle`, the dispatch on the state.
pub mod Errors
pub mod Idle
pub mod Download
pub mod Install
pub mod Commit
pub mod Report
pub mod Reboot
pub mod Init
