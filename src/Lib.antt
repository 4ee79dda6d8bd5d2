-- ===== src/Lib.antt =====
-- SkillMount mounts agent Skills into the discovery directories of a coding agent for one session. It folds
-- the Skill sources into a catalog, observes what exists, plans links under a conflict policy, records the
-- transaction in a journal, applies it, supervises the child, and cleans up or recovers afterwards.
--
-- What is modelled, and where:
--   Prelude, Text, Native, FilePath, SortedMap: Rust's results, strings as the bytes of their UTF-8 encoding,
--     native strings (src/native.rs), paths by their components on Unix, and `BTreeMap` as a sorted list.
--   Domain/SkillName: `SkillName::parse` and the comparison key of src/domain.rs.
--   Agent: the discovery snapshot of src/agent/mod.rs and `PathKind` of src/mount/resolve.rs.
--   Catalog/Overlay: `fold_sources` of src/catalog/resolve.rs. `fold_from` is its loop; `within_source` and
--     `merge` are the two inner loops. Catalog/Aliases: `reject_canonical_aliases` of the same file.
--   Mount/Action, Mount/Conflict: src/mount/mod.rs and src/mount/plan.rs. `decide` is the body of the loop of
--     `apply_conflict_policy`; `most_restrictive_of` is the loop that `visible_occupant` and
--     `most_restrictive` share. Below it, Scan describes the loop without an order, Decide gives the table,
--     Safety says what a created or a reused link needs, and Run is about whole plans.
--   Process/Ledger: src/process/event.rs. The word is a number below 2 ^ 32 and its masks and shifts are
--     quotients and remainders. Each compare-and-exchange loop is given by its round, and Steps is the
--     relation of all successful exchanges in any order, on any stale value that a thread may hold.
--   Journal/Codec: src/journal/codec.rs. Token, Line and Document are its three layers. The hash of the
--     sha2 crate is a parameter, of which only is asked that a digest is made of bytes.
--   Journal/Status, Journal/Record: the enums and records of src/journal/mod.rs, `to_lines`, and `from_lines`
--     with `validate`; `load` of src/journal/store.rs, with its bound of 4 MiB, for a file that can be read.
--   Lock: what a recorded lock permits to mutate, of src/lock/mod.rs, and the keys of src/lock/key.rs;
--     Lock/Order sorts and deduplicates the recorded locks. The spelling of a path that the file system
--     resolves, and physical identities, are a parameter.
--   Paths: `lexical_normalize` of src/paths.rs and the comparison of paths of src/link/resolve.rs.
--   Link, Link/Label, Link/Ownership: the entries, the recorded evidence, its texts and its comparison, of
--     src/link/mod.rs and src/link/config_file.rs.
--   Link/Host: the system calls that src/link/unix.rs makes, as a record of functions with their documented laws.
--     Link/Outcome and Link/Unix: the operations of `UnixBackend` over them. Below, Spares and Fresh are about the
--     entries that an operation leaves or makes.
--   Link/Backend: the trait `LinkBackend` as a record of operations and laws, which is what the transaction engine
--     is given; Link/Unix/Instance fills it for Unix. Link/Chain: `resolve_chain` of src/link/resolve.rs over it.
--   Transaction: the open transaction of src/transaction/mod.rs and its environment: the backend, the durable
--     journal and the texts of src/render.rs. Report and Clear: the report and `clear_action` of
--     src/transaction/cleanup.rs; Cleanup: the pass over the pending actions, the cleanups and `roll_back`.
--     Staging and Apply: src/transaction/apply.rs, with a function for each part of `create_and_place`. Open:
--     `journal_action`. The world is threaded through every call, and a `?` is `carry` of
--     Prelude/Results.
--   Tests: concrete inputs, a host with a list of entries, and a disk with directories.
--
-- The catalog gives planning its Skills; planning gives the transaction its actions, which the journal
-- records; the engine applies and cleans them up through the backend, after saving the journal; the ledger is
-- independent of them. The records of the journal and the snapshot are modelled with the fields that the
-- modelled code reads.
--
-- Bounds: a journal has at most 65,536 lines, a pid and an action id fit 32 bits and a source ordinal 64. The
-- loops are by recursion on their lists, and a chain of links is followed for the 41 rounds of the source.
-- The decimal digits of a number run on fuel, one more than the number, which has fewer digits than that, and
-- the hexadecimal digits of a device number on 16, which a `u64` has at most. Of the ledger's loops the rounds
-- are modelled, and not the repetition; the events that a pass of finalization takes are a parameter of it.
--
-- The engine runs on one world, in sequence: what another process does between a check and the removal that
-- follows it, which the source names as a residual window of Unix, is not in the model. Checkpoints and the hooks of
-- tests do nothing there and are left out.
--
-- Not modelled: the file system but for the laws of its calls, the Windows backend and the reparse points and
-- path forms of Windows (src/link/windows.rs, reparse.rs, winpath.rs), recovery
-- (src/transaction/recover.rs) and the checks of locks when a transaction opens, taking and holding locks
-- (src/lock), child supervision (src/process/driver.rs and the platform files), the adapters
-- (src/agent/codex.rs, claude.rs, omp), the frontmatter of Skills, the operator commands, the command line, and
-- text for the terminal. Paths and the journal's records are those of Unix; tokens and native strings are
-- modelled for both platforms.
pub mod Prelude
pub mod Text
pub mod Native
pub mod Journal
pub mod FilePath
pub mod Catalog
pub mod SortedMap
pub mod Domain
pub mod Agent
pub mod Mount
pub mod Process
pub mod Paths
pub mod Link
pub mod Lock
pub mod Transaction
mod Tests
