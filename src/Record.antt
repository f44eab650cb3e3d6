-- ===== src/Record.antt =====
-- src/observer/storage/record: records, their pages and the iterator over a page.
pub mod Rid
pub mod Page
