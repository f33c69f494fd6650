-- ===== src/Spool.antt =====
-- internal/spool/spool.go: the durable ledger. `Codec` has the line format, `State` the spool and
-- its files, and the other modules the operations and what they guarantee.
pub mod Codec
pub mod State
pub mod Append
pub mod Chain
pub mod Ledger
pub mod Recover
pub mod Reopen
pub mod Cursors
pub mod Ingest
pub mod Read
pub mod Compact
pub mod Verify
pub mod Lifecycle
