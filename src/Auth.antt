-- ===== src/Auth.antt =====
-- auth/service.py and legal.py: registration, sessions, email verification and password resets.
pub mod Store
pub mod Safe
pub mod Legal
pub mod Sessions
pub mod Emails
pub mod Passwords
pub mod Registration
pub mod Kept
pub mod Service
mod Tests
pub mod Preserved
pub mod Ended
pub mod Accounts
pub mod Registered
pub mod Refusals
pub mod Entering
pub mod Replaced
