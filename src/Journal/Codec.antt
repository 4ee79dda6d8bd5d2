-- ===== src/Journal/Codec.antt =====
-- src/journal/codec.rs: the line-oriented encoding of a journal file.
pub mod Token
pub mod Line
pub mod Document
