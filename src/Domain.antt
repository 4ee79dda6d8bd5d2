-- ===== src/Domain.antt =====
-- src/domain.rs: the validated names.
pub mod SkillName
