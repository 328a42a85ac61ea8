-- ===== src/Installer.antt =====
-- The installers of payloads, installer/: two root file systems, block devices, update modules.
pub mod Module
pub mod BootEnv
pub mod Partitions
pub mod DualRootfs
pub mod Found
pub mod Inactive
pub mod UBoot
pub mod Accepted
pub mod BlockDevice
