-- ===== src/Pack.antt =====
-- dnar-pack (internal/cmd/dnar-pack).
pub mod LocalIndex
pub mod State
pub mod Reference
pub mod Votes
pub mod Files
pub mod PathInfo
pub mod Dnar
pub mod Inputs
pub mod Kept
pub mod Invariants
pub mod Stream
pub mod ReadBack
pub mod TooLarge
pub mod Sorting
pub mod Searching
pub mod Index
pub mod Main
pub mod Options
pub mod Skipping
pub mod References
pub mod Closure
pub mod Roots
pub mod Deltas
pub mod Indices
pub mod Sent
