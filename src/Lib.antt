-- ===== src/Lib.antt =====
-- DeltaNAR packs the difference between two Nix closures into one stream, and unpacks it on a host that has
-- the old closure.
--
-- The packer (cmd dnar-pack) indexes store paths into a database: it chunks and hashes every file. It then
-- writes a stream: a header and a description of each new store path as a NAR, a header and the chunk stream,
-- and a trailer with the paths and files of the target that the descriptions refer to. A file of the NAR is
-- taken whole from the target, or chunk by chunk: from a file of the target, as a delta against a file of the
-- target, or from the chunk stream. The unpacker (cmd dnar-unpack) reads the whole stream into memory and a
-- temporary chunk store, then writes each NAR, into a binary cache or in the format of nix-store --export.
--
-- The files and what they model:
--   Base: lists, texts, results (a value, an error, a panic), Go's 64-bit integers and slices, writers, a
--     host's files (internal/mmapfile/mmapfile.go among them), base names, and Go's flags.
--   Delta: internal/delta/delta.go. Index is NewIndex and hash, Diff is Diff, Patch is Patch.
--   ChunkStore: internal/chunk_store/store.go. open_temp_chunk_store, write_chunk, map_chunks, read_chunk and
--     close_chunks are OpenTempChunkStore, WriteChunk, Map, ReadChunk and Close.
--   Store: internal/store/chunk.go. Chunking is ChunkFile, Tree is ReadStorePath.
--   Database: internal/database. Queries has one function for each query of query.sql.go; Rows
--     and Consistency are what the tables keep true, Matching is the join of the local matches.
--   Dnar: the messages of internal/dnar/dnar.pb.go, and Wire their delimited streams.
--   Pack: internal/cmd/dnar-pack. LocalIndex is localindex.go; State, Reference, Files and Dnar are writeDNAR
--     of dnar.go with the cache of delta.go, in the order in which it works; PathInfo is path-info.go, Index
--     is index.go, Main and Options are main.go, and Roots is internal/gcroots/gcroots.go with internal/store/closure.go.
--     Votes, Inputs, Indices, Kept, Invariants, Deltas, Sent, Stream, ReadBack, TooLarge, Skipping, References,
--     Sorting, Searching and Closure prove things of them.
--   Unpack: internal/cmd/dnar-unpack. Read is read.go, Nar is writeNAR of write.go, Export and ExportMain are
--     nix-store-export.go, BinaryCache is binary-cache.go, Cli is cli.go and Main is main.go.
--   Transfer: both programs together. Transfer says what the database, the hosts and the stream have to do
--     with one another; Rows, Sound and Growth are what the packer keeps true, Kinds, Chosen, Chunks and
--     Regular follow the chunks of a file, Faithful, Steps, Nars and EndToEnd whole store
--     paths, and Export the export command behind them.
--   Tests: concrete runs.
--
-- State and failures. A routine that changes an object takes it and gives the new one. A Go error is err, with
-- the program's own messages told apart; a panic is panic. Where a command panics with an error that it got,
-- the model gives the error. What a stream held before a failure is not kept.
--
-- Parameters. Code outside the repository is an argument: the protobuf encodings (a message whose strings are UTF-8
-- is marshalled; read back it is the same where it is at most 4 MiB, which is protodelim's default limit, and an
-- error where it is larger), blake3, the content defined chunker (its cuts are the beginning of the content), the SQL
-- engine's choice among rows, the operating system's writes and mappings, the JSON decoder, go-nix's NAR
-- writer, nix and nix-store. The order in which Go goes through a map of votes is a function of the votes.
--
-- Bounds and fuel. uint64 sums wrap at 2 ^ 64 and int sums in two's complement. Database ids and sizes are
-- natural numbers, and the packer's products of them stay below 2 ^ 63. A slice that would take more than
-- 2 ^ 48 bytes panics. The loop of Diff is recursion on fuel: its rounds are at most the target's bytes, and
-- running out would be the outcome stuck, which the round trip excludes. The pieces of io.Copy are at most the
-- file's bytes, and the rounds of slices.BinarySearch at most the list's length; the decimal digits of a uint64 are at most twenty.
--
-- Not modelled: the usage texts, the running of processes, the opening and migration of the database,
-- protobuf's generated reflection, the closing of files, when memory is unmapped (but for Close of the chunk
-- store), and concurrency where each task writes its own place.
pub mod Base
pub mod Delta
pub mod ChunkStore
pub mod Store
pub mod Database
pub mod Dnar
pub mod Pack
pub mod Unpack
pub mod Transfer
mod Tests
