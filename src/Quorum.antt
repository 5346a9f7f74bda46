-- ===== src/Quorum.antt =====
-- What a quorum is for: two quorums of one policy have an endorser in common that is not faulty.
pub mod Overlap
pub mod Decided
pub mod Meet
