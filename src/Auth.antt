-- ===== src/Auth.antt =====
-- auth-service: accounts, login, tokens and the codes that are sent by mail.
pub mod Keys
pub mod Env
pub mod Accounts
pub mod Tokens
pub mod Login
pub mod Lockout
pub mod Attempts
pub mod Mailing
pub mod Register
pub mod Reset
pub mod TwoFactor
pub mod Passwords
pub mod Revocation
pub mod ResetFlow
pub mod Grants
pub mod RegisterFlow
pub mod SecondFactor
pub mod Notices
pub mod Examples
