-- ===== src/Common.antt =====
-- The helpers of the directory common/.
pub mod Base64
pub mod Result
pub mod StateJournal
mod Tests
