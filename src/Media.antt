-- ===== src/Media.antt =====
-- The media service (server/internal/media): its table in `Store`, the object store as the code calls
-- it in `Objects`, uploads in `Uploads`, and what a history of uploads reaches in `Histories`.
pub mod Store
pub mod Objects
pub mod Uploads
pub mod Histories
mod Examples
