-- ===== src/Reader.antt =====
-- packages/reader: the read pipeline. The environment and the errors; the source and its retries, the
-- traversal of the cache levels, the coordinated flight, the cached read, and the Reader; then what
-- holds of every read.
pub mod Errors
pub mod Environment
pub mod Timeout
pub mod Observations
pub mod Source
pub mod Traversal
pub mod Flight
pub mod InFlight
pub mod Cached
pub mod Execute
pub mod Cancelled
pub mod Attempts
pub mod Budget
pub mod Lease
mod Examples
