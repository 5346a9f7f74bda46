-- ===== src/Encoding.antt =====
-- The package db/encoding: the data types that a stored value is read as.
pub mod Uint64
pub mod Set
pub mod Float
