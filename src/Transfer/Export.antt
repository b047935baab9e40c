-- ===== src/Transfer/Export.antt =====
-- The packer's stream through the export command of the unpacker (internal/cmd/dnar-pack/dnar.go:
-- writeDNAR, internal/cmd/dnar-unpack/nix-store-export.go: nixStoreExportMain).
use deltanar.Base.{
  ℕ, ◌*◌, ◌^◌, ◌≤◌, ◌<◌, ◌≡◌, ◌≢◌, refl, ap, ◌∙◌, List, [], ◌∷◌, ◌++◌, map, none, some, inl, inr,
  Result, ok, err, panic, stuck, length, get_elem?, All,
}
use deltanar.Base.Text.{Text}
use deltanar.Base.Host.{Host}
use deltanar.Base.Writer.{Writer, Writes}
use deltanar.Store.{Hashing}
use deltanar.ChunkStore.{Os}
use deltanar.Database.{StoreFile, Db, IsEngine}
use deltanar.Dnar.{NarFile, Nar}
use deltanar.Dnar.Wire.{Wire}
use deltanar.Pack.State.{Packing}
use deltanar.Pack.Files.{Source}
use deltanar.Pack.PathInfo.{PathInfos}
use deltanar.Pack.Votes.Best.{IsShuffle}
use deltanar.Pack.Stream.{Written, HasSmallMessages}
use deltanar.Unpack.Read.{Archive, read_archive}
use deltanar.Unpack.Stream.{Succeeds}
use deltanar.Unpack.Export.Format.{write_uint64_le-Writes, write_export_trailer-Writes}
use deltanar.Unpack.ExportMain.{
  export_ref, export_nar, export_nars, nix_store_export_main, NarEncoding, exported_stream,
  export_nars-contents,
}
use deltanar.Unpack.Nar.{write_nar}
use deltanar.Unpack.Nar.Sink.{NarWriter}
use deltanar.Unpack.Nar.Chunks.{Inputs}
use deltanar.Unpack.Nar.Trace.{Call, Trace, nar_trace, file_trace, root_trace, feed, play, ◌⨾◌}
use deltanar.Unpack.Nar.Refines.Files.{write_nar-play}
use deltanar.Transfer.{Describes}
use deltanar.Transfer.Faithful.{IsSaid, Rebuilds, done, said, copied, skipped, AreFaithful}
use deltanar.Transfer.EndToEnd.{TargetHolds, read_archive-rebuilds}

-- The NAR writer takes these calls, on whatever it writes to.
abbrev pub IsTaken : {W : Type 0} → NarWriter W → List Call → Type 0
IsTaken {W} nw calls =
    (w : W)
    → (start : nw.Writing) × (end : nw.Writing) × (w' : W) × (nw.new_writer w ≡ some start)
      × (feed nw calls start ≡ ok end)
      × (nw.close end ≡ some w')

-- Every input can be copied to the end, and the NAR writer takes the calls of each NAR.
pub record CanReplay {W : Type 0} (nw : NarWriter W) (inp : Inputs) (nars : List Nar) : Type 0 where
  pub walks :
      (i : ℕ) (name path : Text)
      → get_elem? inp.files i ≡ some path
      → (root_trace inp.host name path (inp.host.lstat path)).outcome ≡ ok tt
  pub takes : All (λ nar. IsTaken nw (nar_trace inp nar.files).calls) nars

module _ (db : Db) (contents : ℕ → List ℕ) (q : Packing) (inp : Inputs)
    (walks : (i : ℕ) (name path : Text)
      → get_elem? inp.files i ≡ some path
      → (root_trace inp.host name path (inp.host.lstat path)).outcome ≡ ok tt) where
  ⨾-outcome : (t t' : Trace) → t.outcome ≡ ok tt → t'.outcome ≡ ok tt → (t ⨾ t').outcome ≡ ok tt
  ⨾-outcome t t' e e' = rw (e, e')

  said-outcome :
      (f : StoreFile) (t : _)
      → IsSaid db contents q inp f t
      → (file_trace inp t f.path).outcome ≡ ok tt
  said-outcome f t (inl (_, (pieces, e, _))) = rw e
  said-outcome f t (inr (inl (_, e))) = rw e
  said-outcome f t (inr (inr (_, e))) = rw e

  Rebuilds-outcome :
      (dir : Text) (fs : List StoreFile) (nfs : List NarFile)
      → Rebuilds db contents q inp dir fs nfs
      → (nar_trace inp nfs).outcome ≡ ok tt
  Rebuilds-outcome dir [] [] done = refl
  Rebuilds-outcome dir [] (nf ∷ nfs) x = elim x [ ]
  Rebuilds-outcome dir (f ∷ fs) (nf ∷ nfs) (said s r) =
      ⨾-outcome _ _ (said-outcome f _ s) (Rebuilds-outcome dir fs nfs r)
  Rebuilds-outcome dir (f ∷ fs) (nf ∷ nfs) (copied ty c r) =
      ⨾-outcome _ _ (ap (λ x. x.outcome) c.copies ∙ walks c.index f.path c.path c.is_path)
        (Rebuilds-outcome f.path fs nfs r)
  Rebuilds-outcome dir (f ∷ fs) nfs (skipped n p r) = Rebuilds-outcome dir fs nfs r

Writes-ne-fails :
    {W : Type 0} (wr : Writer W) (w : W) (bytes : List ℕ) (r : Result W)
    → ((v : W) (more : List ℕ) → wr.write v more ≢ none)
    → Writes wr w bytes r
    → (w' : W) × (r ≡ ok w')
Writes-ne-fails wr w bytes (ok w') works h = (w', refl)
Writes-ne-fails wr w bytes (err e) works (_, v, more, fails) = elim (works v more fails) [ ]
Writes-ne-fails wr w bytes panic works h = elim h [ ]
Writes-ne-fails wr w bytes stuck works h = elim h [ ]

write_nar-ok :
    {W : Type 0} (nw : NarWriter W) (inp : Inputs) (nar : Nar) (w : W)
    → IsTaken nw (nar_trace inp nar.files).calls
    → (nar_trace inp nar.files).outcome ≡ ok tt
    → (w' : W) × (write_nar nw inp nar w ≡ ok w')
unfolding play
write_nar-ok nw inp nar w taken e =
    let (start, end, w', e₁, e₂, e₃) = taken w in
    (w', write_nar-play nw inp nar w ∙ rw (e₁, e₂, e, e₃))

-- What a NAR needs to be exported.
abbrev IsExported : {W : Type 0} → NarWriter W → Inputs → Nar → Type 0
IsExported nw inp nar =
    IsTaken nw (nar_trace inp nar.files).calls × ((nar_trace inp nar.files).outcome ≡ ok tt)

module _ {W : Type 0} (wr : Writer W) (nw : NarWriter W) (inp : Inputs) (store_dir : Text)
    (works : (v : W) (more : List ℕ) → wr.write v more ≢ none) where
  export_nars-ok :
      (nars : List Nar) (w : W)
      → All (IsExported nw inp) nars
      → (w' : W) × (export_nars wr nw inp store_dir nars w ≡ ok w')
  unfolding export_nars export_nar
  export_nars-ok [] w h = Writes-ne-fails wr w _ _ works (write_uint64_le-Writes wr w 0)
  export_nars-ok (nar ∷ nars) w ((taken, ends), h) =
      let (w₁, e₁) = Writes-ne-fails wr w _ _ works (write_uint64_le-Writes wr w 1) in
      let (w₂, e₂) = write_nar-ok nw inp nar w₁ taken ends in
      let (w₃, e₃) = Writes-ne-fails wr w₂ _ _ works (
        write_export_trailer-Writes wr w₂ nar.path (map (export_ref store_dir) nar.references)
          []) in
      let (w₄, e₄) = export_nars-ok nars w₃ h in (w₄, rw (e₁, e₂, e₃, e₄))

faithful-IsExported :
    {W : Type 0} (nw : NarWriter W) (db : Db) (contents : ℕ → List ℕ) (q : Packing) (inp : Inputs)
    (nars all : List Nar)
    → CanReplay nw inp all
    → All (λ nar. IsTaken nw (nar_trace inp nar.files).calls) nars
    → AreFaithful db contents q inp nars
    → All (IsExported nw inp) nars
faithful-IsExported nw db contents q inp [] all c takes h = tt
faithful-IsExported nw db contents q inp (nar ∷ nars) all c (t, takes) (r, h) = (
  (t, Rebuilds-outcome db contents q inp c.walks [] _ nar.files r),
  faithful-IsExported nw db contents q inp nars all c takes h,
)

-- The whole way through the export command. On the conditions of the transfer (the consistent database
-- describes the files without collisions, the engine picks rows that it has, the target holds the regular
-- input files, the operating system's writes and mappings succeed, and the sizes are in their bounds,
-- those of the messages, at most 4 MiB, among them), where the output never fails to be written, every
-- input that the stream names can be copied to its end on the target, and the NAR writer takes the calls
-- of each NAR: the command ends without an error on what `writeDNAR` wrote. Its output is then the export
-- stream of one NAR for each packed store path in their order, with the encoding of the calls that the
-- descriptions stand for on the target, and each NAR describes the files of its store path.
pub nix_store_export_main-rebuilds :
    {B W : Type 0} (h : Hashing) (src : Source) (db : Db) (contents : ℕ → List ℕ) (w : Wire B)
    (os : Os) (target : Host) (infos : PathInfos) (ss local_paths : List Text) (out : List B)
    (wr : Writer W) (nw : NarWriter W) (enc : NarEncoding wr nw) (store_dir : Text) (v : W)
    → Describes h src db contents
    → IsEngine src.engine
    → IsShuffle src.shuffle
    → Succeeds os
    → (d : Written src db w infos ss local_paths out)
    → TargetHolds db contents d.packing.input_files target
    → length ss * 8 ≤ 2 ^ 48
    → length d.packing.chunk_deps < 2 ^ 63
    → length d.packing.input_paths ≤ 2 ^ 32
    → HasSmallMessages src db w infos ss local_paths out d
    → ((v : W) (more : List ℕ) → wr.write v more ≢ none)
    → ((archive : Archive)
        → read_archive w os out ≡ ok archive
        → CanReplay nw
            (record {
              host = target;
              codec = src.codec;
              store = archive.store;
              files = archive.inputs;
            })
            archive.nars)
    → (inp : Inputs) × (v' : W) × (nix_store_export_main w os target src.codec wr nw store_dir out v
        ≡ ok v')
      × (wr.contents v' ≡ wr.contents v ++ exported_stream wr nw enc inp store_dir d.nars)
      × (map (λ n. n.path) d.nars ≡ ss)
      × (inp.host ≡ target)
      × AreFaithful db contents d.packing inp d.nars
unfolding nix_store_export_main
nix_store_export_main-rebuilds h src db contents w os target infos ss local out wr nw enc store_dir
      v des lawful order sys d holds hs hc hp small works can =
    let (store, inputs, read, paths, faithful) =
      read_archive-rebuilds h src db contents w os target infos ss local out des lawful order sys d
        holds hs hc hp small in
    let inp : Inputs = record { host = target; codec = src.codec; store = store; files = inputs } in
    let c = can (record { nars = d.nars; store = store; inputs = inputs }) read in
    let (v', e) =
      export_nars-ok wr nw inp store_dir works d.nars v
        (faithful-IsExported nw db contents d.packing inp d.nars d.nars c c.takes faithful) in
    (
      inp,
      v',
      rw read e,
      export_nars-contents wr nw enc inp store_dir d.nars v v' e,
      paths,
      refl,
      faithful,
    )
