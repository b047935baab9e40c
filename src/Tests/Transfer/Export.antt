-- ===== src/Tests/Transfer/Export.antt =====
-- From the packer through the export command on a small database.
use deltanar.Base.{
  ℕ, ◌≡◌, ◌≢◌, refl, sym, ap, ◌∙◌, List, [], ◌∷◌, ◌++◌, none, some, ok, ok-injective, map,
  get_elem?, All, arith,
}
use deltanar.Base.Text.{Text, bytes, text_eq}
use deltanar.Base.Writer.{buffer}
use deltanar.Dnar.{Nar}
use deltanar.Unpack.Read.{Archive, read_archive}
use deltanar.Pack.Stream.{input_file_paths}
use deltanar.Pack.Reference.{store_file_abs_path}
use deltanar.Database.Queries.{first, get_store_path_by_id}
use deltanar.Pack.ReadBack.{read_archive-write_dnar}
use deltanar.Unpack.ExportMain.{nix_store_export_main, exported_stream}
use deltanar.Unpack.Nar.Chunks.{Inputs}
use deltanar.Unpack.Nar.Trace.{Call, header, write, nar_trace, root_trace, node_trace, feed}
use deltanar.Unpack.Nar.Walk.{pieces}
use deltanar.Transfer.Rows.{All-at}
use deltanar.Transfer.Faithful.{AreFaithful}
use deltanar.Transfer.Export.{IsTaken, CanReplay, nix_store_export_main-rebuilds}
use deltanar.Tests.Samples.{codec, os, os-Succeeds, wire, engine-IsEngine, hashing}
use deltanar.Tests.Described.{describes}
use deltanar.Tests.Disk.{db, contents, disk, src, target, order}
use deltanar.Tests.Unpack.{nar_writer, encoding}
use deltanar.Tests.Transfer.{infos, local, sent, packed, out, is_written, collected, small, holds}

abbrev old_files : List Text
old_files = bytes "/s/old/f" ∷ []

feed-ok : (calls : List Call) (w : List ℕ) → (end : List ℕ) × (feed nar_writer calls w ≡ ok end)
unfolding feed
feed-ok [] w = (w, refl)
feed-ok (header h ∷ calls) w = feed-ok calls (w ++ h.path)
feed-ok (write bs ∷ calls) w = feed-ok calls (w ++ bs)

nars-IsTaken :
    (inp : Inputs) (nars : List Nar)
    → All (λ nar. IsTaken nar_writer (nar_trace inp nar.files).calls) nars
nars-IsTaken inp [] = tt
nars-IsTaken inp (nar ∷ nars) = (
  λ w. let (end, e) = feed-ok (nar_trace inp nar.files).calls w in (w, end, end, refl, e, refl),
  nars-IsTaken inp nars,
)

abbrev CanBeWalked : Text → Type 0
CanBeWalked path = (name : Text) → (root_trace target name path (target.lstat path)).outcome ≡ ok tt

old_f-CanBeWalked : CanBeWalked (bytes "/s/old/f")
unfolding node_trace pieces disk text_eq
old_f-CanBeWalked name = refl

named : input_file_paths db is_written.packing.input_files ≡ ok old_files
unfolding is_written input_file_paths get_store_path_by_id first store_file_abs_path text_eq
named = ap (input_file_paths db) collected.0

is_read : (archive : Archive) → read_archive wire os out ≡ ok archive → archive.inputs ≡ old_files
unfolding is_written
is_read archive e =
    let (store, inputs, e', _, _, ei) =
      read_archive-write_dnar src db wire os os-Succeeds infos sent local out is_written
        (omega arith) (omega (arith, collected.1)) (omega (arith, collected.2)) small in
    let same : archive.inputs ≡ inputs = ap (λ a. a.inputs) (ok-injective (sym e ∙ e')) in
    same ∙ ok-injective (sym ei ∙ named)

can_replay :
    (archive : Archive)
    → read_archive wire os out ≡ ok archive
    → CanReplay nar_writer
        (record { host = target; codec = codec; store = archive.store; files = archive.inputs })
        archive.nars
can_replay archive e = record {
  walks = λ i name path k.
      All-at CanBeWalked old_files i (old_f-CanBeWalked, tt)
        (ap (λ l. get_elem? l i) (sym (is_read archive e)) ∙ k) name;
  takes = nars-IsTaken _ archive.nars;
}

never_fails : (v more : List ℕ) → some (v ++ more) ≢ none
never_fails v more e = cc

nix_store_export_main-rebuilds_example :
    (inp : Inputs) × (v' : List ℕ) × (nix_store_export_main wire os target codec buffer nar_writer
        (bytes "/s")
        out
        []
      ≡ ok v')
    × (v' ≡ [] ++ exported_stream buffer nar_writer encoding inp (bytes "/s") packed.0)
    × (map (λ n. n.path) packed.0 ≡ sent)
    × (inp.host ≡ target)
    × AreFaithful db contents packed.1 inp packed.0
unfolding is_written packed
nix_store_export_main-rebuilds_example =
    nix_store_export_main-rebuilds hashing src db contents wire os target infos sent local out
      buffer nar_writer encoding (bytes "/s") [] describes engine-IsEngine order os-Succeeds
      is_written holds (omega arith) (omega (arith, collected.1)) (omega (arith, collected.2)) small
      never_fails can_replay
