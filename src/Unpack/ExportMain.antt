-- ===== src/Unpack/ExportMain.antt =====
-- The main function of the export command (internal/cmd/dnar-unpack/nix-store-export.go) behind the
-- opening of its files. Where the code panics with an error, the model gives the error.
use deltanar.Base.{
  ℕ, ◌≡◌, sym, ◌∙◌, List, [], ◌∷◌, ◌++◌, map, some, Result, ok, ◌>>=◌, >>=-eq-ok, of_option,
  of_option-eq-ok, library,
}
use deltanar.Base.Text.{Text}
use deltanar.Base.Writer.{Writer, Writes}
use deltanar.Delta.{DeltaCodec}
use deltanar.Base.Host.{Host}
use deltanar.ChunkStore.{Os}
use deltanar.Dnar.{Nar}
use deltanar.Dnar.Wire.{Wire}
use deltanar.Unpack.Read.{read_archive}
use deltanar.Unpack.Export.{le64, write_uint64_le, write_export_trailer}
use deltanar.Unpack.Export.Format.{
  export_trailer, write_uint64_le-Writes, write_export_trailer-Writes,
}
use deltanar.Unpack.Nar.{write_nar}
use deltanar.Unpack.Nar.Sink.{NarWriter}
use deltanar.Unpack.Nar.Chunks.{Inputs}
use deltanar.Unpack.Nar.Trace.{Call, nar_trace, feed, play}
use deltanar.Unpack.Nar.Refines.Files.{write_nar-play}
use mathlib.Core.List.{append_assoc}

-- The store directory of go-nix in front of a reference.
abbrev pub export_ref : Text → Text → Text
export_ref store_dir ref = store_dir ++ (b'/' ∷ ref)

module _ {W : Type 0} (wr : Writer W) (nw : NarWriter W) (inp : Inputs) (store_dir : Text) where
  -- The body of the loop over the NARs.
  unfoldable pub export_nar : Nar → W → Result W
  unfolding write_uint64_le
  export_nar nar w = do
    w₁ ← write_uint64_le wr w 1
    w₂ ← write_nar nw inp nar w₁
    write_export_trailer wr w₂ nar.path (map (export_ref store_dir) nar.references) []

  unfoldable pub export_nars : List Nar → W → Result W
  unfolding export_nar
  export_nars [] w = write_uint64_le wr w 0
  export_nars (nar ∷ nars) w = do w₁ ← export_nar nar w; export_nars nars w₁

-- `nixStoreExportMain`
unfoldable pub nix_store_export_main :
    {B W : Type 0}
    → Wire B
    → Os
    → Host
    → DeltaCodec
    → Writer W
    → NarWriter W
    → Text
    → List B
    → W
    → Result W
unfolding export_nars
nix_store_export_main w os host codec wr nw store_dir input out = do
  archive ← read_archive w os input
  export_nars wr nw
      (record { host = host; codec = codec; store = archive.store; files = archive.inputs })
      store_dir archive.nars out

-- What the NAR writer of the library puts into the stream, once it is closed, for the calls it was given.
pub record NarEncoding {W : Type 0} (wr : Writer W) (nw : NarWriter W) : Type 0 where
  pub encode : List Call → List ℕ
  pub encodes :
      (w : W) (calls : List Call) {start end : nw.Writing} {w' : W}
      → nw.new_writer w ≡ some start
      → feed nw calls start ≡ ok end
      → nw.close end ≡ some w'
      → wr.contents w' ≡ wr.contents w ++ encode calls

module _ {W : Type 0} (wr : Writer W) (nw : NarWriter W) (enc : NarEncoding wr nw) (inp : Inputs)
    (store_dir : Text) where
  -- One store path of the export format: the mark, the NAR, and the trailer with whole references.
  unfoldable pub exported : Nar → List ℕ
  exported nar =
      le64 1
      ++ (enc.encode (nar_trace inp nar.files).calls
          ++ export_trailer nar.path (map (export_ref store_dir) nar.references) [])

  unfoldable pub exported_stream : List Nar → List ℕ
  unfolding exported
  exported_stream [] = le64 0
  exported_stream (nar ∷ nars) = exported nar ++ exported_stream nars

  pub write_nar-contents :
      (nar : Nar) (w w' : W)
      → write_nar nw inp nar w ≡ ok w'
      → wr.contents w' ≡ wr.contents w ++ enc.encode (nar_trace inp nar.files).calls
  unfolding play
  write_nar-contents nar w w' h =
      let k = sym (write_nar-play nw inp nar w) ∙ h in
      let (start, e₁, k₁) = >>=-eq-ok (of_option library (nw.new_writer w)) _ k in
      let (end, e₂, k₂) = >>=-eq-ok (play nw (nar_trace inp nar.files) start) _ k₁ in
      let (last, e₃, k₃) = >>=-eq-ok (feed nw (nar_trace inp nar.files).calls start) _ e₂ in
      let (_, e₄, k₄) = >>=-eq-ok (nar_trace inp nar.files).outcome _ k₃ in
      enc.encodes w (nar_trace inp nar.files).calls (of_option-eq-ok library _ e₁) (e₃ ∙ k₄)
        (of_option-eq-ok library _ k₂)

  Writes-ok :
      (w : W) (bytes : List ℕ) (r : Result W) {w' : W}
      → Writes wr w bytes r
      → r ≡ ok w'
      → wr.contents w' ≡ wr.contents w ++ bytes
  Writes-ok w bytes r h e = let k = rw e at h in k

  export_nar-contents :
      (nar : Nar) (w w' : W)
      → export_nar wr nw inp store_dir nar w ≡ ok w'
      → wr.contents w' ≡ wr.contents w ++ exported nar
  unfolding export_nar exported
  export_nar-contents nar w w' h =
      let (w₁, e₁, h₁) = >>=-eq-ok (write_uint64_le wr w 1) _ h in
      let (w₂, e₂, h₂) = >>=-eq-ok (write_nar nw inp nar w₁) _ h₁ in
      let c₁ = Writes-ok w (le64 1) _ (write_uint64_le-Writes wr w 1) e₁ in
      let c₂ = write_nar-contents nar w₁ w₂ e₂ in
      let c₃ =
        Writes-ok w₂ _ _
          (write_export_trailer-Writes wr w₂ nar.path (map (export_ref store_dir) nar.references)
            [])
          h₂ in
      c₃ ∙ rw (c₂, c₁, append_assoc, append_assoc)

  -- For a NAR writer that puts out an encoding of its calls: an export that ends without an error has
  -- written, for every NAR in order, the mark, the encoding of the calls that its description stands for,
  -- and the trailer with the whole paths of the references; at the end stands the mark that no more
  -- follow.
  pub export_nars-contents :
      (nars : List Nar) (w w' : W)
      → export_nars wr nw inp store_dir nars w ≡ ok w'
      → wr.contents w' ≡ wr.contents w ++ exported_stream nars
  unfolding export_nars exported_stream
  export_nars-contents [] w w' h = Writes-ok w (le64 0) _ (write_uint64_le-Writes wr w 0) h
  export_nars-contents (nar ∷ nars) w w' h =
      let (w₁, e₁, h₁) = >>=-eq-ok (export_nar wr nw inp store_dir nar w) _ h in
      export_nars-contents nars w₁ w' h₁ ∙ rw (export_nar-contents nar w w₁ e₁, append_assoc)
