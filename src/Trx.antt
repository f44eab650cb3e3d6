-- ===== src/Trx.antt =====
-- src/observer/storage/trx: transactions.
pub mod Store
pub mod Kit
pub mod Mvcc
