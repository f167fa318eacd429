-- ===== src/Desktop.antt =====
-- The desktop application, src-tauri/src/services.
pub mod Pending
pub mod Keys
