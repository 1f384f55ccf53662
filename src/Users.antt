-- ===== src/Users.antt =====
-- Users of a tenant: account lifecycle, seats and invites.
pub mod Lifecycle
pub mod Quota
pub mod Invites
