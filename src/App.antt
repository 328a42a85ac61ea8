-- ===== src/App.antt =====
-- The state machine of the daemon (app/).
pub mod DeploymentLogger
pub mod Authorization
pub mod Error
pub mod Transition
pub mod State
pub mod World
pub mod Depends
pub mod Handle
pub mod Transit
pub mod Daemon
pub mod Diagram
pub mod Retry
pub mod Recovery
pub mod Broken
pub mod Committing
pub mod Payloads
pub mod Success
pub mod Standalone
