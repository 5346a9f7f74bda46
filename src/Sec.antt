-- ===== src/Sec.antt =====
-- The package myc/sec: the keys of a node and its peers, and how far they are trusted.
pub mod Trust
pub mod Keys
pub mod Web
pub mod Ring
