-- ===== src/Transfer/EndToEnd.antt =====
-- From the packing of store paths (internal/cmd/dnar-pack/dnar.go) through the stream to the writing of the
-- NARs on the target (internal/cmd/dnar-unpack/read.go and write.go).
use deltanar.Base.{
  ℕ, zero, suc, ◌*◌, ◌^◌, ◌≤◌, ◌<◌, ◌≡◌, refl, sym, ap, ◌∙◌, true, List, [], ◌∷◌, map, some, ok,
  >>=-eq-ok, ok-injective, length, get_elem?,
}
use deltanar.Base.Text.{Text}
use deltanar.Base.Host.{Host, mmap_open, mapped}
use deltanar.Store.{Hashing}
use deltanar.ChunkStore.{Os, TempChunkStore}
use deltanar.Database.{StorePath, StoreFile, Db, IsEngine}
use deltanar.Database.Queries.{get_store_path_by_id, get_store_file_by_id}
use deltanar.Dnar.Wire.{Wire}
use deltanar.Pack.Files.{Source}
use deltanar.Pack.PathInfo.{PathInfos}
use deltanar.Pack.Reference.{store_file_abs_path}
use deltanar.Pack.Votes.Best.{IsShuffle}
use deltanar.Pack.Stream.{Written, HasSmallMessages, input_file_paths, length-payloads}
use deltanar.Pack.ReadBack.{read_archive-write_dnar}
use deltanar.Unpack.Read.{read_archive}
use deltanar.Unpack.Stream.{Succeeds}
use deltanar.Unpack.Nar.Chunks.{Inputs}
use deltanar.Transfer.{Describes, OnTarget}
use deltanar.Transfer.Nars.{pack_store_paths-rebuilds}
use deltanar.Transfer.Faithful.{AreFaithful}

-- The target holds these files: the regular ones open under their absolute paths, can be mapped, and have
-- the content that the database describes.
pub record TargetHolds (db : Db) (contents : ℕ → List ℕ) (files : List StoreFile) (target : Host)
    : Type 0 where
  pub opens :
      (i : ℕ) (f g : StoreFile) (sp : StorePath)
      → get_elem? files i ≡ some f
      → get_store_path_by_id db f.store_path_id ≡ ok sp
      → get_store_file_by_id db f.id ≡ ok g
      → g.type ≡ 0
      → target.open_file (store_file_abs_path sp.path f.path) ≡ some (contents f.id)
  pub maps : (path : Text) → target.mappable path ≡ true

mmap_open-ok :
    (host : Host) (path : Text) (bytes : List ℕ)
    → host.open_file path ≡ some bytes
    → host.mappable path ≡ true
    → mmap_open host path ≡ ok bytes
unfolding mmap_open
mmap_open-ok host path bytes e m = rw e (mapped-ok bytes)
  where
    mapped-ok : (bytes : List ℕ) → mapped host path bytes ≡ ok bytes
    mapped-ok [] = refl
    mapped-ok (b ∷ bs) = rw m

-- The path of an input file is at its place.
input_file_paths-get :
    (db : Db) (files : List StoreFile) (inputs : List Text) (i : ℕ) (f : StoreFile)
    → input_file_paths db files ≡ ok inputs
    → get_elem? files i ≡ some f
    → (sp : StorePath) × (get_store_path_by_id db f.store_path_id ≡ ok sp)
      × (get_elem? inputs i ≡ some (store_file_abs_path sp.path f.path))
unfolding input_file_paths
input_file_paths-get db [] inputs i f h e = cc
input_file_paths-get db (g ∷ gs) inputs zero f h e =
    let (sp, ep, h₁) = >>=-eq-ok (get_store_path_by_id db g.store_path_id) _ h in
    let (rest, er, h₂) = >>=-eq-ok (input_file_paths db gs) _ h₁ in
    let same : g ≡ f = cc in
    let first = ap (λ l. get_elem? l 0) (sym (ok-injective h₂)) in
    (
      sp,
      ap (λ x. get_store_path_by_id db x.store_path_id) (sym same) ∙ ep,
      first ∙ ap (λ x. some (store_file_abs_path sp.path x.path)) same,
    )
input_file_paths-get db (g ∷ gs) inputs (suc i) f h e =
    let (sp, ep, h₁) = >>=-eq-ok (get_store_path_by_id db g.store_path_id) _ h in
    let (rest, er, h₂) = >>=-eq-ok (input_file_paths db gs) _ h₁ in
    let (sp', ep', place) = input_file_paths-get db gs rest i f er e in
    (sp', ep', ap (λ l. get_elem? l (suc i)) (sym (ok-injective h₂)) ∙ place)

paths-OnTarget :
    (db : Db) (contents : ℕ → List ℕ) (files : List StoreFile) (inp : Inputs)
    → TargetHolds db contents files inp.host
    → input_file_paths db files ≡ ok inp.files
    → OnTarget db contents files inp
paths-OnTarget db contents files inp holds e = record {
  finds = λ i f k.
      let (sp, _, place) = input_file_paths-get db files inp.files i f e k in
      (store_file_abs_path sp.path f.path, place);
  has = λ i f path k g row own kind.
      let (sp, ep, place) = input_file_paths-get db files inp.files i f e k in
      let same : store_file_abs_path sp.path f.path ≡ path = some-injective (sym place ∙ g) in
      let opens =
        ap (λ x. inp.host.open_file x) (sym same) ∙ holds.opens i f row sp k ep own kind in
      (opens, mmap_open-ok inp.host path (contents f.id) opens (holds.maps path));
}
  where
    some-injective : {a b : Text} → some a ≡ some b → a ≡ b
    some-injective k = cc

-- From the packing host to the target's NARs. The database is consistent and describes the files (their
-- contents, sizes, hashes, and the chunks of a regular file one behind the other, of at most 2 ^ 48
-- bytes), its rows' hashes do not collide, the engine picks rows that it has, the votes are gone through
-- in any order, the target holds the regular input files, and the operating system's writes and mappings
-- succeed. Then a stream that `writeDNAR` wrote, of store paths that fit in memory, with fewer than 2 ^ 63
-- payloads, at most 2 ^ 32 input paths, and messages of at most 4 MiB, is read to its end, and each NAR
-- describes the files of its store path, one after the other and in their order. For a regular one the
-- unpacker writes the header with the row's size and then exactly the row's content, whether its chunks
-- were sent, found on the target, or rebuilt from deltas. For a symlink it writes the header with the
-- target. For a directory it writes the header, or copies what stands at the path of an input with the
-- same hash. A file is left out only where its path begins with that of the directory that was copied
-- last.
pub read_archive-rebuilds :
    {B : Type 0} (h : Hashing) (src : Source) (db : Db) (contents : ℕ → List ℕ) (w : Wire B)
    (os : Os) (target : Host) (infos : PathInfos) (ss local_paths : List Text) (out : List B)
    → Describes h src db contents
    → IsEngine src.engine
    → IsShuffle src.shuffle
    → Succeeds os
    → (d : Written src db w infos ss local_paths out)
    → TargetHolds db contents d.packing.input_files target
    → length ss * 8 ≤ 2 ^ 48
    → length d.packing.chunk_deps < 2 ^ 63
    → length d.packing.input_paths ≤ 2 ^ 32
    → HasSmallMessages src db w infos ss local_paths out d
    → (store : TempChunkStore) × (inputs : List Text) × (read_archive w os out
        ≡ ok (record { nars = d.nars; store = store; inputs = inputs }))
      × (map (λ n. n.path) d.nars ≡ ss)
      × AreFaithful db contents d.packing
          (record { host = target; codec = src.codec; store = store; files = inputs })
          d.nars
read_archive-rebuilds h src db contents w os target infos ss local out des lawful order sys d holds
      hs hc hp small =
    let (store, inputs, read, paths, shows, ei) =
      read_archive-write_dnar src db w os sys infos ss local out d hs hc hp small in
    let inp : Inputs = record { host = target; codec = src.codec; store = store; files = inputs } in
    (
      store,
      inputs,
      read,
      paths,
      pack_store_paths-rebuilds h src db contents infos local ss d.packing d.nars inp des lawful
          order d.packs
          (record {
            sent = d.chunks;
            sends = d.chunks-payloads;
            few = rw (length-payloads src db d.packing.chunk_deps d.chunks-payloads) hc;
            shows = shows;
            target = paths-OnTarget db contents d.packing.input_files inp holds ei;
            same_codec = refl;
          }),
    )
