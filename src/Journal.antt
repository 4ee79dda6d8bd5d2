-- ===== src/Journal.antt =====
-- src/journal: the durable write-ahead record of one mutating session.
pub mod Codec
pub mod Status
pub mod Record
