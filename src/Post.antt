-- ===== src/Post.antt =====
-- post-service: reports of posts and comments.
pub mod Report
pub mod Reviews
pub mod Feed
pub mod Entities
pub mod Rows
pub mod CommentRows
pub mod Posts
pub mod Comments
pub mod Likes
pub mod Access
mod Examples
mod Samples
