-- ===== src/Installer/Module.antt =====
-- Update modules: installer/modules.go.
pub mod Download
pub mod Call
pub mod Reply
pub mod Tree
pub mod Built
pub mod Factory
