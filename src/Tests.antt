-- ===== src/Tests.antt =====
-- Runs of the model at concrete inputs.
mod Runtime
mod Transaction
mod Accounts
mod Totp
mod Login
mod Revoked
mod Keys
mod Gateway
mod Routes
mod Invitations
mod Registration
mod Evidence
mod Realtime
mod Bans
