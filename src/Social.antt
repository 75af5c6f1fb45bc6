-- ===== src/Social.antt =====
-- user-service: profiles, friendships, friend requests and blocks over SQL.
pub mod Env
pub mod Repository
pub mod Service
pub mod Calls
pub mod Mutual
pub mod Symmetry
pub mod Effects
pub mod Accepting
pub mod Requests
mod Examples
