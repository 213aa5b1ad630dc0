-- ===== src/Txn.antt =====
-- Transactions: txn/lock_manager.go and txn/txn.go.
pub mod Locks
pub mod Manager
