-- ===== src/Statescript.antt =====
-- The state scripts, statescript/: which scripts there are, and running them.
pub mod Name
pub mod Launcher
pub mod Executor
pub mod Retry
pub mod Order
pub mod All
