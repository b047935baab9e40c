-- ===== src/Tests/Described.antt =====
-- The small database describes its files (internal/database).
use deltanar.Base.{
  ℕ, zero, suc, ◌^◌, ◌≤◌, ◌<◌, ◌≡◌, refl, sym, ap, ◌∙◌, List, true, false, some, ok, ok-injective,
  length, map, arith, All, ◌+◌, ◌==◌, concat,
}
use deltanar.Base.Text.{bytes, text_eq}
use deltanar.Database.{StorePath, StoreFile, Chunk}
use deltanar.Database.Queries.{select, first, hash_eq, get_store_path_by_id, get_store_file_by_id}
use deltanar.Pack.Reference.{store_file_abs_path}
use deltanar.Transfer.{Describes, range}
use deltanar.Transfer.Rows.{All-at}
use deltanar.Tests.Samples.{hashing}
use deltanar.Tests.Disk.{
  chunk_row, old_f, new_root, new_f, new_g, new_l, old_path, new_path, db, contents, disk, src,
}
use deltanar.Tests.Indexed.{is_consistent}

abbrev Opens : StoreFile → Type 0
Opens f =
    (sp : StorePath) (bytes : List ℕ)
    → f.type ≡ 0
    → get_store_path_by_id db f.store_path_id ≡ ok sp
    → disk (store_file_abs_path sp.path f.path) ≡ some bytes
    → (bytes ≡ contents f.id) × (f.size ≡ length bytes)

Opens-row :
    (f : StoreFile) (row : StorePath) (content : List ℕ)
    → get_store_path_by_id db f.store_path_id ≡ ok row
    → disk (store_file_abs_path row.path f.path) ≡ some content
    → content ≡ contents f.id
    → f.size ≡ length content
    → Opens f
Opens-row f row content ep eo same size sp bytes ty e₁ e₂ =
    let path : row ≡ sp = ok-injective (sym ep ∙ e₁) in
    let here = ap (λ x. disk (store_file_abs_path x.path f.path)) path ∙ e₂ in
    let eq : content ≡ bytes = some-injective (sym eo ∙ here) in
    (sym eq ∙ same, size ∙ ap (λ l. length l) eq)
  where
    some-injective : {a b : List ℕ} → some a ≡ some b → a ≡ b
    some-injective k = cc

not_regular : (f : StoreFile) → 0 < f.type → Opens f
not_regular f h sp bytes ty e₁ e₂ = absurd (omega (arith, h, ty))

all_open : All Opens db.files
unfolding get_store_path_by_id first disk store_file_abs_path text_eq
all_open = (
  Opens-row old_f old_path (bytes "hi") refl refl refl refl,
  (
    not_regular new_root (omega arith),
    (
      Opens-row new_f new_path (bytes "hi") refl refl refl refl,
      (
        Opens-row new_g new_path (bytes "yohi") refl refl refl refl,
        (not_regular new_l (omega arith), tt),
      ),
    ),
  ),
)

small : (id : ℕ) → length (contents id) ≤ 2 ^ 48
small zero = omega arith
small (suc zero) = omega arith
small (suc (suc zero)) = omega arith
small (suc (suc (suc zero))) = omega arith
small (suc (suc (suc (suc zero)))) = omega arith
small (suc (suc (suc (suc (suc n))))) = omega arith

-- A file with the same hash has the same content.
abbrev IsSame : StoreFile → StoreFile → Type 0
IsSame f g =
    f.type ≡ 0
    → hash_eq g.hash f.hash ≡ true
    → (g.type ≡ 0) × (contents g.id ≡ contents f.id) × (g.size ≡ length (contents f.id))

no_file : (f g : StoreFile) → 0 < f.type → IsSame f g
no_file f g h ty e = absurd (omega (arith, h, ty))

other : (f g : StoreFile) → hash_eq g.hash f.hash ≡ false → IsSame f g
other f g h ty e = absurd (false-ne-true (sym h ∙ e))
  where
    false-ne-true : false ≡ true → ⊥
    false-ne-true e = cc

equal :
    (f g : StoreFile)
    → g.type ≡ 0
    → contents g.id ≡ contents f.id
    → g.size ≡ length (contents f.id)
    → IsSame f g
equal f g kind same size ty e = (kind, same, size)

all-IsSame : All (λ f. All (λ g. IsSame f g) db.files) db.files
unfolding text_eq
all-IsSame = (
  (
    equal old_f old_f refl refl refl,
    (
      other old_f new_root refl,
      (equal old_f new_f refl refl refl, (other old_f new_g refl, (other old_f new_l refl, tt))),
    ),
  ),
  (
    (
      no_file new_root old_f (omega arith),
      (
        no_file new_root new_root (omega arith),
        (
          no_file new_root new_f (omega arith),
          (no_file new_root new_g (omega arith), (no_file new_root new_l (omega arith), tt)),
        ),
      ),
    ),
    (
      (
        equal new_f old_f refl refl refl,
        (
          other new_f new_root refl,
          (
            equal new_f new_f refl refl refl,
            (other new_f new_g refl, (other new_f new_l refl, tt)),
          ),
        ),
      ),
      (
        (
          other new_g old_f refl,
          (
            other new_g new_root refl,
            (
              other new_g new_f refl,
              (equal new_g new_g refl refl refl, (other new_g new_l refl, tt)),
            ),
          ),
        ),
        (
          (
            no_file new_l old_f (omega arith),
            (
              no_file new_l new_root (omega arith),
              (
                no_file new_l new_f (omega arith),
                (no_file new_l new_g (omega arith), (no_file new_l new_l (omega arith), tt)),
              ),
            ),
          ),
          tt,
        ),
      ),
    ),
  ),
)

abbrev IsRegularRow : Chunk → Type 0
IsRegularRow c = (f : StoreFile) → get_store_file_by_id db c.file_id ≡ ok f → f.type ≡ 0

regular_row :
    (c : Chunk) (g : StoreFile)
    → get_store_file_by_id db c.file_id ≡ ok g
    → g.type ≡ 0
    → IsRegularRow c
regular_row c g e ty f h = ap (λ x. x.type) (ok-injective (sym h ∙ e)) ∙ ty

regular_rows : All IsRegularRow db.chunks
unfolding get_store_file_by_id first
regular_rows = (
  regular_row (chunk_row 1 1 (bytes "hi") 0) old_f refl refl,
  (
    regular_row (chunk_row 2 3 (bytes "hi") 0) new_f refl refl,
    (
      regular_row (chunk_row 3 4 (bytes "yo") 0) new_g refl refl,
      (regular_row (chunk_row 4 4 (bytes "hi") 2) new_g refl refl, tt),
    ),
  ),
)

fit : All (λ c. c.offset + c.size ≤ length (contents c.file_id)) db.chunks
fit = (omega arith, (omega arith, (omega arith, (omega arith, tt))))

hashes : All (λ c. c.hash ≡ hashing.blake3 (range contents c)) db.chunks
hashes = (refl, (refl, (refl, (refl, tt))))

tile :
    All
      (λ f.
        f.type ≡ 0
        → concat (map (λ c. range contents c) (select (λ c. c.file_id == f.id) db.chunks))
          ≡ contents f.id)
      db.files
unfolding select
tile = (λ e. refl, (λ e. refl, (λ e. refl, (λ e. refl, (λ e. refl, tt)))))

pub describes : Describes hashing src db contents
describes = record {
  opens = λ i f sp bytes e ty ep eo. All-at Opens db.files i all_open e sp bytes ty ep eo;
  same_files = λ i j f g e e' ty h.
      All-at (IsSame f) db.files j
        (All-at (λ f. All (λ g. IsSame f g) db.files) db.files i all-IsSame e) e' ty h;
  consistent = is_consistent;
  of_regular = λ i c e. All-at IsRegularRow db.chunks i regular_rows e;
  fits = λ i c e. All-at (λ c. c.offset + c.size ≤ length (contents c.file_id)) db.chunks i fit e;
  hashed = λ i c e. All-at (λ c. c.hash ≡ hashing.blake3 (range contents c)) db.chunks i hashes e;
  no_collision = λ i j c d ec ed e. e;
  tiles = λ i f e ty.
      All-at
        (λ f.
          f.type ≡ 0
          → concat (map (λ c. range contents c) (select (λ c. c.file_id == f.id) db.chunks))
            ≡ contents f.id)
        db.files i tile e ty;
  small = small;
}
