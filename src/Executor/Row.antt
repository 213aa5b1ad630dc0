-- ===== src/Executor/Row.antt =====
-- Rows as bytes: executor/row.go.
pub mod Bitmap
pub mod Codec
pub mod Marks
pub mod RoundTrip
pub mod Extends
pub mod Truncation
