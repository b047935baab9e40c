-- ===== src/Unpack.antt =====
-- dnar-unpack (internal/cmd/dnar-unpack).
pub mod Read
pub mod Stream
pub mod Trailing
pub mod Export
pub mod ExportMain
pub mod BinaryCache
pub mod Cli
pub mod Main
pub mod Nar
