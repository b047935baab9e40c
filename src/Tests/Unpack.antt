-- ===== src/Tests/Unpack.antt =====
-- The unpacker on small streams.
use deltanar.Base.{
  err, expected_eof, ℕ, ◌-◌, ◌^◌, ◌≡◌, refl, sym, ◌∙◌, List, [], ◌∷◌, ◌++◌, true, none, some,
  Result, ok, panic, ◌>>=◌, of_option, library, map, arith,
}
use deltanar.Base.Int.{negsuc}
use deltanar.Base.Text.{bytes}
use deltanar.Base.Host.{Host}
use deltanar.Base.Writer.{buffer, Writes}
use deltanar.ChunkStore.{TempChunkStore, open_temp_chunk_store}
use deltanar.ChunkStore.Laws.{Shows}
use deltanar.Dnar.{CaChunk, Nar, PathTrailer, directory, symlink}
use deltanar.Dnar.Wire.{dnar_stream, AreReadable}
use deltanar.Unpack.Read.{read_archive}
use deltanar.Unpack.Trailing.{read_archive-trailing}
use deltanar.Unpack.Stream.{read_archive-dnar_stream}
use deltanar.Unpack.Export.{
  le64, write_uint64_le, write_nix_string, write_refs, write_export_trailer,
}
use deltanar.Unpack.Export.Format.{export_trailer, write_export_trailer-Writes}
use deltanar.Unpack.Export.ReadBack.{read_export_trailer, read_export_trailer-write}
use deltanar.Unpack.Nar.{write_nar, write_files, write_file, write_type, write_directory}
use deltanar.Unpack.Nar.Sink.{NarWriter, put_header}
use deltanar.Unpack.Nar.Chunks.{Inputs, delta_range}
use deltanar.Unpack.Nar.Trace.{Call, header, write, nar_trace, feed, play}
use deltanar.Unpack.Nar.Refines.Files.{write_nar-play}
use deltanar.Unpack.Nar.Bounds.{delta_range_wraps}
use deltanar.Unpack.ExportMain.{
  NarEncoding, export_nar, export_nars, exported_stream, export_nars-contents,
}
use deltanar.Unpack.BinaryCache.{CacheFs}
use deltanar.Tests.Samples.{header_message, codec, os, os-Succeeds, wire}
use mathlib.Core.List.{append_assoc, append-nil}

abbrev pub one_nar : Nar
one_nar = record {
  path = bytes "/s/x";
  files =
      record { path = bytes "/"; file_type = directory (negsuc 0) }
      ∷ record { path = bytes "/l"; file_type = symlink (bytes "t") }
      ∷ [];
  nar_hash = bytes "h";
  nar_size = 3;
  references = bytes "r" ∷ [];
}

abbrev trailer : PathTrailer
trailer = record {
  paths = bytes "/s/old" ∷ [];
  files = record { store_path = 0; path = bytes "/f" } ∷ [];
}

abbrev chunks : List CaChunk
chunks = record { payload = bytes "abc" } ∷ record { payload = [] } ∷ []

readable : AreReadable wire (one_nar ∷ []) chunks trailer
readable = (
  (refl, omega arith),
  ((refl, omega arith), tt),
  (refl, omega arith),
  ((refl, omega arith), ((refl, omega arith), tt)),
  (refl, omega arith),
)

read_archive-dnar_stream_example :
    (store : TempChunkStore) × (read_archive wire os
        (dnar_stream wire (one_nar ∷ []) chunks trailer)
      ≡ ok (record { nars = one_nar ∷ []; store = store; inputs = bytes "/s/old/f" ∷ [] }))
    × Shows store (map (λ c. c.payload) chunks)
read_archive-dnar_stream_example =
    read_archive-dnar_stream wire os os-Succeeds (one_nar ∷ []) chunks trailer
      (bytes "/s/old/f" ∷ []) readable (omega arith) (omega arith) refl

-- A writer that puts out the paths of headers, and the bytes.
abbrev pub nar_writer : NarWriter (List ℕ)
nar_writer = record {
  Writing = List ℕ;
  new_writer = λ w. some w;
  write_header = λ w h. some (w ++ h.path);
  write = λ w bytes. some (w ++ bytes);
  close = λ w. some w;
}

abbrev pub host : Host
host = record { open_file = λ path. none; lstat = λ path. none; mappable = λ path. true }

abbrev pub inputs : Inputs
unfolding open_temp_chunk_store
inputs = record { host = host; codec = codec; store = open_temp_chunk_store; files = [] }

write_nar-play_example : write_nar nar_writer inputs one_nar [] ≡ (do
  start ← of_option library (nar_writer.new_writer [])
  end ← play nar_writer (nar_trace inputs one_nar.files) start
  of_option library (nar_writer.close end))
write_nar-play_example = write_nar-play nar_writer inputs one_nar []

abbrev call_bytes : List Call → List ℕ
call_bytes [] = []
call_bytes (header h ∷ calls) = h.path ++ call_bytes calls
call_bytes (write bs ∷ calls) = bs ++ call_bytes calls

feed-bytes :
    (calls : List Call) (w : List ℕ) {end : List ℕ}
    → feed nar_writer calls w ≡ ok end
    → end ≡ w ++ call_bytes calls
unfolding feed
feed-bytes [] w e = let k : w ≡ _ = cc in sym k ∙ sym (append-nil w)
feed-bytes (header h ∷ calls) w e =
    feed-bytes calls (w ++ h.path) e ∙ append_assoc w h.path (call_bytes calls)
feed-bytes (write bs ∷ calls) w e =
    feed-bytes calls (w ++ bs) e ∙ append_assoc w bs (call_bytes calls)

nar_encodes :
    (w : List ℕ) (calls : List Call) {start end w' : List ℕ}
    → some w ≡ some start
    → feed nar_writer calls start ≡ ok end
    → some end ≡ some w'
    → w' ≡ w ++ call_bytes calls
nar_encodes w calls {start} {end} {w'} a e b =
    let k : end ≡ w' = cc in
    let s : w ≡ start = cc in sym k ∙ (feed-bytes calls start e ∙ rw s refl)

pub encoding : NarEncoding buffer nar_writer
encoding = record { encode = call_bytes; encodes = nar_encodes }

abbrev export_out : Result (List ℕ) → List ℕ
export_out (ok w) = w
export_out _ = []

abbrev exported_bytes : List ℕ
unfolding export_nars
exported_bytes = export_out (export_nars buffer nar_writer inputs (bytes "/s") (one_nar ∷ []) [])

exports : export_nars buffer nar_writer inputs (bytes "/s") (one_nar ∷ []) [] ≡ ok exported_bytes
unfolding export_nars export_nar write_uint64_le write_nar write_files write_file write_type
    write_directory put_header write_export_trailer write_nix_string write_refs le64
exports = refl

export_nars-contents_example :
    exported_bytes
    ≡ [] ++ exported_stream buffer nar_writer encoding inputs (bytes "/s") (one_nar ∷ [])
export_nars-contents_example =
    export_nars-contents buffer nar_writer encoding inputs (bytes "/s") (one_nar ∷ []) []
      exported_bytes exports

write_export_trailer-Writes_example :
    Writes buffer []
      (export_trailer (bytes "/s/x") (bytes "/s/r" ∷ []) [])
      (write_export_trailer buffer [] (bytes "/s/x") (bytes "/s/r" ∷ []) [])
write_export_trailer-Writes_example =
    write_export_trailer-Writes buffer [] (bytes "/s/x") (bytes "/s/r" ∷ []) []

read_export_trailer-write_example :
    (out : List ℕ) × (write_export_trailer buffer [] (bytes "/s/x") (bytes "/s/r" ∷ []) [] ≡ ok out)
    × (read_export_trailer (out ++ bytes "rest")
        ≡ some (
          record { store_path = bytes "/s/x"; references = bytes "/s/r" ∷ []; deriver = [] },
          bytes "rest",
        ))
read_export_trailer-write_example =
    read_export_trailer-write (bytes "/s/x") (bytes "/s/r" ∷ []) [] (bytes "rest") (omega arith)
      (omega arith) (omega arith, tt) (omega arith)

delta_range_wraps_example :
    delta_range inputs (bytes "abc") (record {
      index = 0;
      size = 2 ^ 64 - 1;
      offset = 2;
      digest = [];
      delta_index = 0;
      result_size = 1;
    })
    ≡ panic
delta_range_wraps_example =
    delta_range_wraps inputs (bytes "abc")
      (record {
        index = 0;
        size = 2 ^ 64 - 1;
        offset = 2;
        digest = [];
        delta_index = 0;
        result_size = 1;
      })
      (omega arith) (omega arith) (omega arith) (omega arith)

abbrev pub cache_fs : CacheFs
cache_fs = record { mkdir_all = λ path. true; is_missing = λ path. true; creates = λ path. true }

read_archive-trailing_example :
    read_archive wire os (
      dnar_stream wire (one_nar ∷ []) chunks trailer
      ++ (header_message (record { length = 0 }) ∷ []))
    ≡ err expected_eof
read_archive-trailing_example =
    read_archive-trailing wire os os-Succeeds (one_nar ∷ []) chunks trailer (bytes "/s/old/f" ∷ [])
      (header_message (record { length = 0 })) [] readable (omega arith) (omega arith) refl
