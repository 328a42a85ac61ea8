-- ===== src/Datastore.antt =====
-- The client's database (datastore/, store/dbstore.go): the state data that survives a reboot.
pub mod StateData
pub mod Db
pub mod Persist
pub mod Fields
pub mod Atomic
pub mod Counting
pub mod Reload
