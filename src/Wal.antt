-- ===== src/Wal.antt =====
-- The write-ahead log: wal/wal.go and wal/recovery.go.
pub mod Crc
pub mod Record
pub mod Log
pub mod RoundTrip
pub mod Scan
pub mod Short
pub mod Torn
pub mod Append
pub mod Recovery
