-- ===== src/Pack/References.antt =====
-- A reference on its way from nix to the exported store path (internal/cmd/dnar-pack/path-info.go and
-- internal/cmd/dnar-unpack/nix-store-export.go).
use deltanar.Base.{
  ◌≡◌, refl, sym, ap, ◌∙◌, List, [], ◌∷◌, ◌++◌, map, ok, none, some, Bool-cases, inl, inr, ℕ,
}
use deltanar.Base.Text.{Text, text_eq, filepath_base}
use deltanar.Base.Basename.{IsName, filepath_base_lem}
use deltanar.Pack.PathInfo.{
  PathInfo, PathInfos, lookup_info, basenames, Json, Format, parse_format, parse_path_infos,
}
use deltanar.Unpack.ExportMain.{export_ref}

-- The whole paths of names in the store.
abbrev pub in_store : Text → List Text → List Text
in_store store_dir = map (λ name. store_dir ++ (b'/' ∷ name))

abbrev pub AllNames : List Text → Type 0
AllNames [] = Unit
AllNames (s ∷ ss) = IsName s × AllNames ss

lookup-basenames :
    (k : Text) (infos : PathInfos) {i : PathInfo}
    → lookup_info k infos ≡ some i
    → lookup_info k (basenames infos)
      ≡ some (record i { references = map filepath_base i.references })
unfolding lookup_info
lookup-basenames k [] h = cc
lookup-basenames k ((j, v) ∷ m) h = elim (Bool-cases (text_eq j k)) [
  | inl e ↦
      let t = rw e at h in
      rw e (
        ap
          (λ o. elim o [
            | none ↦ none
            | some i ↦ some (record i { references = map filepath_base i.references })
          ])
          t)
  | inr e ↦ let t = rw e at h in rw e (lookup-basenames k m t)
]

refs_back :
    (store_dir : Text) (names : List Text)
    → AllNames names
    → map (export_ref store_dir) (map filepath_base (in_store store_dir names))
      ≡ in_store store_dir names
refs_back store_dir [] h = refl
refs_back store_dir (s ∷ ss) (h, hs) =
    rw (filepath_base_lem store_dir s h, refs_back store_dir ss hs)

-- In every format of nix's output: the references that nix gives a path as whole paths of names in the
-- store go over the wire as their base names, and the export restores them all.
pub parse_path_infos-export_ref :
    (json : Json) (out : List ℕ) (format : Format) (infos : PathInfos) (store_dir k : Text)
    (names : List Text) (i : PathInfo)
    → parse_format json out format ≡ ok infos
    → lookup_info k infos ≡ some i
    → i.references ≡ in_store store_dir names
    → AllNames names
    → (parsed : PathInfos) × (i' : PathInfo) × (parse_path_infos json out format ≡ ok parsed)
      × (lookup_info k parsed ≡ some i')
      × (map (export_ref store_dir) i'.references ≡ i.references)
unfolding parse_path_infos
parse_path_infos-export_ref json out format infos store_dir k names i h e r n = (
  basenames infos,
  record i { references = map filepath_base i.references },
  rw h refl,
  lookup-basenames k infos e,
  ap (λ l. map (export_ref store_dir) (map filepath_base l)) r
      ∙ (refs_back store_dir names n ∙ sym r),
)
