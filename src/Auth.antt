-- ===== src/Auth.antt =====
-- auth/: sessions, logins, password resets, the second factor.
pub mod Sessions
pub mod Login
pub mod Resolution
pub mod Revocation
pub mod Lockout
pub mod Opening
pub mod Entry
pub mod Totp
pub mod Accounts
pub mod Discord
