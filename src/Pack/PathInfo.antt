-- ===== src/Pack/PathInfo.antt =====
-- `nix path-info` (internal/cmd/dnar-pack/path-info.go).
use deltanar.Base.{
  ℕ, List, [], ◌∷◌, ◌++◌, Option, none, some, Result, ok, library, missing_path_field, ◌>>=◌, ◌>>◌,
  fail_if, of_option, map, if◌then◌else◌, Bool, ◌||◌,
}
use deltanar.Base.Text.{Text, text_eq, filepath_base, has_prefix, bytes}

-- `nixPathInfo`
pub record PathInfo : Type 0 where
  pub path : Text
  pub nar_hash : Text
  pub nar_size : ℕ
  pub references : List Text

-- `pathInfoFormat`
pub data Format : Type 0 where
  nix_object nix_v2 lix_array : Format

-- A Go map by texts, the key that was set last in front.
abbrev pub PathInfos : Type 0
PathInfos = List (Text × PathInfo)

unfoldable pub lookup_info : Text → PathInfos → Option PathInfo
lookup_info k [] = none
lookup_info k ((j, v) ∷ m) = if text_eq j k then some v else lookup_info k m

-- The document of the second format of cppnix: the entries by base name, and the store directory.
pub record InfoDocument : Type 0 where
  pub info : PathInfos
  pub store_dir : Text

-- The JSON decoder of Go's library, for the three documents.
pub record Json : Type 0 where
  pub array : List ℕ → Option (List PathInfo)
  pub document : List ℕ → Option InfoDocument
  pub object : List ℕ → Option PathInfos

-- The loop over the array of lix: an entry without a path is an error.
unfoldable pub add_entries : List PathInfo → PathInfos → Result PathInfos
add_entries [] infos = ok infos
add_entries (i ∷ is) infos = do
  fail_if (text_eq i.path []) missing_path_field
  add_entries is ((i.path, i) ∷ infos)

-- Version 2 keys entries by store-path base name.
abbrev pub keyed : Text → PathInfos → PathInfos
keyed store_dir = map (λ (name, i). (store_dir ++ (b'/' ∷ name), i))

-- References are stored as bare basenames on the wire.
abbrev pub basenames : PathInfos → PathInfos
basenames = map (λ (path, i). (path, record i { references = map filepath_base i.references }))

module _ (json : Json) where
  unfoldable pub parse_format : List ℕ → Format → Result PathInfos
  unfolding add_entries
  parse_format out lix_array = do
    entries ← of_option library (json.array out)
    add_entries entries []
  parse_format out nix_v2 = do
    doc ← of_option library (json.document out)
    ok (keyed doc.store_dir doc.info)
  parse_format out nix_object = of_option library (json.object out)

  -- `parsePathInfos`
  unfoldable pub parse_path_infos : List ℕ → Format → Result PathInfos
  unfolding parse_format
  parse_path_infos out format = do infos ← parse_format out format; ok (basenames infos)

-- `bytes.Contains`
unfoldable pub contains : Text → Text → Bool
unfolding has_prefix
contains [] sub = has_prefix [] sub
contains (c ∷ s) sub = has_prefix (c ∷ s) sub || contains s sub

-- `pathInfoMode`
pub record Mode : Type 0 where
  pub flags : List Text
  pub format : Format

abbrev pub lix_mode : Mode
lix_mode = record { flags = bytes "--json" ∷ []; format = lix_array }

abbrev pub v2_mode : Mode
v2_mode = record {
  flags = bytes "--json" ∷ bytes "--json-format" ∷ bytes "2" ∷ [];
  format = nix_v2;
}

abbrev pub object_mode : Mode
object_mode = record { flags = bytes "--json" ∷ []; format = nix_object }

abbrev pub nix_command : List Text
nix_command = bytes "--extra-experimental-features" ∷ bytes "nix-command" ∷ bytes "path-info" ∷ []

abbrev pub by_help : Option Text → Mode
unfolding contains
by_help none = object_mode
by_help (some help) = if contains help (bytes "--json-format") then v2_mode else object_mode

-- nix is a function of its arguments: what it prints, if it ends well.
module _ (nix : List Text → Option Text) where
  abbrev pub by_version : Option Text → Mode
  unfolding by_help
  by_version none = by_help (nix (nix_command ++ (bytes "--help" ∷ [])))
  by_version (some version) =
      if contains version (bytes "Lix")
      then lix_mode
      else by_help (nix (nix_command ++ (bytes "--help" ∷ [])))

  -- `probePathInfoMode`, which `nixPathInfoMode` calls once.
  unfoldable pub probe_path_info_mode : Mode
  unfolding by_version
  probe_path_info_mode = by_version (nix (bytes "--version" ∷ []))

  -- `getPathInfos`: nix is not asked about no paths.
  unfoldable pub get_path_infos : Json → List Text → Result PathInfos
  unfolding probe_path_info_mode parse_path_infos
  get_path_infos json [] = ok []
  get_path_infos json (p ∷ ps) = do
    out ← of_option library (nix (nix_command ++ (probe_path_info_mode.flags ++ (p ∷ ps))))
    parse_path_infos json out probe_path_info_mode.format
