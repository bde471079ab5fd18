-- ===== src/Sync.antt =====
-- The sync package (server/internal/sync): deduplication in `Dedup`, the handler of consumed records
-- in `Handler`, a page of missed messages in `Offline`, the loop over the pages in `Paging`.
pub mod Dedup
pub mod Handler
pub mod Offline
pub mod Paging
pub mod Service
pub mod Replays
mod Examples
