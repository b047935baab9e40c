-- ===== src/Tests.antt =====
-- Concrete runs of the model: for each theorem an input on which its conditions hold.
mod Samples
mod Delta
mod Chunks
mod Unpack
mod Pack
mod Disk
mod Indexed
mod Described
mod Transfer
mod Deltas
mod Indexing
mod Commands
