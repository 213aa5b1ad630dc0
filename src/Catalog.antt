-- ===== src/Catalog.antt =====
-- The catalog: table and index definitions, how they are stored, and the maps that hold them.
pub mod Schema
pub mod Encode
pub mod Decode
pub mod Stored
pub mod RoundTrip
