-- ===== src/Catalog.antt =====
-- src/catalog: the Skills of the given sources, and the overlay that selects among them.
pub mod Overlay
pub mod Aliases
