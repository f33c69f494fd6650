-- ===== src/Lib.antt =====
-- A model of vBilling (github.com/vclusterlabs-experiments/vbilling), which meters tenant clusters,
-- keeps usage events in a durable ledger, and delivers them to billing destinations.
--
-- The parts. The controller (internal/controller) discovers the tenant clusters
-- (internal/discovery), bills them to tenants, and meters every window that has closed. The
-- collector and the ingest API append batches of events to the spool (internal/spool), an append-
-- only ledger in segment files, whose lines are hash-chained and whose batches end in a commit
-- record. The dispatcher (internal/pipeline) reads the ledger for each destination from that
-- destination's cursor, delivers, parks what a destination rejects for good as dead letters, and
-- acknowledges. internal/usage has the events and the arithmetic of windows. internal/enforcement
-- turns the billing engines' webhooks into a state per tenant, which it keeps in a key-value store
-- (internal/kv) and writes onto the tenant's clusters.
--
-- The files.
--   Prelude: lists, byte texts, maps and Boolean tests over the native numbers.
--   Usage: Event, Tenant, Window and Overlap of internal/usage/usage.go; Usage/Windows: theorems.
--   Usage/Identity: DeriveID and Validate; Identity/Names and Distinct: theorems.
--   Usage/Catalog: internal/usage/catalog.go, and Finalize; Catalog/Declared: theorems.
--   Spool/Codec: the line format, parseLine and peekSeq; Codec/Lines and Codec/Format: theorems.
--   Spool/State: the Spool, its files, and operations as functions on it that may fail.
--   Spool/Append: AppendWindow, appendLocked, maybeRotateLocked and writeManifestLocked;
--     Append/Batches, Success, Rotation, Outcome and Live: theorems.
--   Spool/Chain and Spool/Ledger: the abstract view, a ledger as a list of chained records, and what
--     it means that the segments and their files hold it.
--   Spool/Recover: scanSegment; Recover/Scans, Crash and Atomic: theorems.
--   Spool/Reopen: Open, recover, loadDedupe and openActive; Reopen/Rescan, Newest, Restored, Opened and
--     Crashed: theorems.
--   Spool/Cursors: Cursor, SetCursor, Ack and loadCursors.
--   Spool/Ingest: AppendIngest and recordDedupe; Ingest/Sift and Idempotent: theorems.
--   Spool/Read: Read, readSegment and readSegmentOpts; Read/Lines, Segments, Whole and Sighted: theorems.
--   Spool/Verify: Verify; Verify/Sound: theorems.
--   Spool/Lifecycle: Stats and Close.
--   Spool/Compact: Compact, compactDedupeLocked and FirstSeq; Compact/Consumed: theorems.
--   Kv: internal/kv/kv.go; Kv/Saved: theorems.
--   Enforcement: New, apply, Set, reflect and StateOf of internal/enforcement/enforcer.go;
--     Enforcement/Webhooks: HandleStripe, HandleMetronome and ParseRules;
--     Webhooks/Valid, Enforcement/Reflect, States, Signals, Synced and Restart: theorems.
--   Discovery: Discover and the identifiers of internal/discovery/discovery.go; Discovery/Found:
--     theorems.
--   Controller/Plan: which windows CollectDue of internal/controller/controller.go meters;
--     Plan/Windows, Bounds and First: theorems.
--   Controller/Meter: CollectDue, up to fillTenantGaps; Meter/Committed, Caught, Live and Panics:
--     theorems.
--   Controller/Gaps: fillTenantGaps and parseGap; Gaps/Spans and Filled: theorems.
--   Controller/Tenants: tenantsFrom and ClustersOf; Tenants/Grouping: theorems.
--   Controller/Reconcile: Reconcile and untilNextWindow; Reconcile/Gone and Kept: theorems.
--   Pipeline/Tenants: the TenantRegistry of internal/pipeline/tenants.go.
--   Pipeline/Deliver: deliver and ensureTenants of internal/pipeline/dispatcher.go, and AddDeadLetter;
--     Deliver/Steps, Parking, Handled and Ends: theorems.
--   Pipeline/Loop: a turn of the loop of internal/pipeline/dispatcher.go; Loop/Covers, Books, Safe and
--     Live: theorems.
--   Pipeline/Backoff: the options' defaults and the delays of sleepBackoff.
--   Destinations/SentCache: internal/destinations/sentcache.go; SentCache/Ring: theorems.
--   Destinations/Signatures, StripeWebhook and MetronomeWebhook: the checks of signatures in
--     internal/destinations/stripe/webhook.go and metronome/webhook.go.
--   Examples: a concrete codec, and the theorems at concrete inputs.
--
-- How the code is read. Times are nanoseconds since Go's zero time and durations are nanoseconds,
-- as natural numbers; sequence numbers do not reach 2^64 (where scanSegment subtracts two of them
-- the wrap is written out). Error texts and logging are dropped. A mutex makes an operation atomic,
-- so an operation is a function on the state. Set of the enforcer releases its mutex before it saves
-- the state: its two steps are `remember` and `save`, and `set_state` is a call that no other call of
-- Set overlaps. An operation reads the clock once. The file of a
-- segment stands in the segment, and is not there before the segment is opened; the JSON files are replaced by a rename, so they are values. What
-- the operating system answers is an argument (`Io`): each close, open, write (with the number of
-- bytes written before an error), sync and truncation may fail. When scanSegment truncates, the
-- truncation works, and Open can read the whole directory or nothing of it. JSON, SHA-256 and
-- decimal numbers are a parameter (`Codec`) with their laws as fields: a digest has 64 characters
-- and no tab or line break, JSON has no line break and decodes to what was encoded, its text starts
-- with the sequence number. Examples/Plain is one such codec. The JSON of the key-value store is a
-- parameter as well (`Json` in Kv), which reads back maps of valid strings, and that of states reads
-- back those that are `encodable`. Times that encoding/json and time.RFC3339 write are before the
-- year 10000, and the theorems that need this say so. A destination is a parameter,
-- functions on an outside world; what it promises is `Promises`. The Kubernetes API, the adapters'
-- customer tables and the JSON of states and webhooks are parameters of the enforcer, HMAC-SHA256,
-- decimal numbers and HTTP dates of the signature checks, hexadecimal SHA-256 and time.RFC3339Nano
-- (`Stamp`) of an event's ID. The answers of the Kubernetes API are a parameter of Discover, the
-- collector, the clock and the destinations' RemoveTenant of the controller, and time.RFC3339 of
-- its gaps (`Clock`). A map that the controller ranges over is taken in the order of its list; a
-- panic of Go is a result (`panicked`).
--
-- Fuel. `deliver` halves a batch; its fuel bounds the depth of the halving. `search` is sort.Search,
-- whose fuel is the number of segments. The loops over windows have as fuel the number of intervals
-- between the first and the last end, and one more.
--
-- Not modelled: Scan of the spool, DeadLetters and ClearDeadLetters, the dispatcher's goroutines
-- and bootstrap and the controller's tickers (scheduling), metrics collection (its collector is a
-- parameter of the controller so far), the reading of the environment in internal/config, the
-- adapters' and the tenant API's HTTP clients, the API server and its dashboard, telemetry (output
-- only) and the command (wiring).
pub mod Prelude
pub mod Usage
pub mod Kv
pub mod Spool
pub mod Destinations
pub mod Enforcement
pub mod Discovery
pub mod Pipeline
pub mod Controller
pub mod Examples
