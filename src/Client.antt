-- ===== src/Client.antt =====
-- The client's side of the server's protocol (client/).
pub mod Backoff
pub mod Resumer
pub mod Update
