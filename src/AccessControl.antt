-- ===== src/AccessControl.antt =====
-- access_control/: registration invites, access codes, and the entitlements of a user.
pub mod Codes
pub mod Store
pub mod Terms
pub mod Entitlements
pub mod Activation
pub mod Issuing
mod Tests
