-- ===== src/Exception/Codes.antt =====
-- The declared error codes of exception/error_code.go, one child for each range of codes.
pub mod Account
pub mod User
pub mod Storage
pub mod Friend
pub mod Post
pub mod Comment
pub mod Chat
pub mod General
pub use Account.*
pub use User.*
pub use Storage.*
pub use Friend.*
pub use Post.*
pub use Comment.*
pub use Chat.*
pub use General.*
