-- ===== src/Auth.antt =====
-- Authentication: passwords, tokens, sessions, password recovery and the request guards.
pub mod Password
pub mod Duration
pub mod Email
pub mod Actors
pub mod Service
pub mod Permissions
pub mod Sessions
pub mod Reset
pub mod Guard
pub mod Impersonation
