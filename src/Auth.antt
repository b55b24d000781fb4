-- ===== src/Auth.antt =====
-- Auth/mdz_auth: secrets, their validation, and sessions.
pub mod Reason
pub mod Secret
pub mod Session
pub mod Manager
