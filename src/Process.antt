-- ===== src/Process.antt =====
-- src/process: supervision of the child process.
pub mod Ledger
