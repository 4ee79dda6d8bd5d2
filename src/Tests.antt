-- ===== src/Tests.antt =====
-- The theorems at concrete inputs.
mod Codec
mod Document
mod Conflict
mod Overlay
mod Directories
mod Transaction
mod Link
mod Ledger
mod Journal
