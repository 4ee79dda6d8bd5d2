-- ===== src/Mount.antt =====
-- src/mount: deterministic mount plans built from read-only observation.
pub mod Action
pub mod Conflict
