-- ===== src/Tests/Samples.antt =====
-- Small stand-ins for what the program takes from elsewhere: message formats, the operating system, the
-- hash, the chunker, the database engine and the NAR writer.
use deltanar.Base.{
  ℕ, zero, suc, ◌≡◌, ◌≢◌, refl, List, [], ◌∷◌, ◌++◌, Bool, true, false, Option, none, some, take,
  get_elem?, ◌≤◌, ◌<◌, leb, if◌then◌else◌, if_true, if_false, arith,
}
use deltanar.Delta.{Op, copy, insert, unset, Delta, DeltaCodec}
use deltanar.Dnar.{StreamHeader, CaChunk, Nar, PathTrailer}
use deltanar.Dnar.Wire.{Wire, max_size}
use deltanar.ChunkStore.{Os, IsLawful}
use deltanar.Unpack.Stream.{Succeeds}
use deltanar.Store.{Hashing}
use deltanar.Store.Tiling.{IsChunker}
use deltanar.Database.{Engine, IsEngine}

-- An operation as numbers: a tag, then what it holds; an insert has a tag for each byte and one at its end.
abbrev insert_numbers : List ℕ → List ℕ → List ℕ
insert_numbers [] rest = 1 ∷ rest
insert_numbers (b ∷ bs) rest = 2 ∷ b ∷ insert_numbers bs rest

abbrev ops_numbers : List Op → List ℕ
ops_numbers [] = []
ops_numbers (copy offset len ∷ ops) = 0 ∷ offset ∷ len ∷ ops_numbers ops
ops_numbers (insert bs ∷ ops) = insert_numbers bs (ops_numbers ops)
ops_numbers (unset ∷ ops) = 3 ∷ ops_numbers ops

abbrev in_front : Op → Option (List Op) → Option (List Op)
in_front op none = none
in_front op (some ops) = some (op ∷ ops)

abbrev one_more : ℕ → Option (List Op) → Option (List Op)
one_more b (some (insert bs ∷ ops)) = some (insert (b ∷ bs) ∷ ops)
one_more b _ = none

abbrev numbers_ops : List ℕ → Option (List Op)
numbers_ops [] = some []
numbers_ops (zero ∷ offset ∷ len ∷ rest) = in_front (copy offset len) (numbers_ops rest)
numbers_ops (suc zero ∷ rest) = in_front (insert []) (numbers_ops rest)
numbers_ops (suc (suc zero) ∷ b ∷ rest) = one_more b (numbers_ops rest)
numbers_ops (suc (suc (suc zero)) ∷ rest) = in_front unset (numbers_ops rest)
numbers_ops _ = none

abbrev as_delta : Option (List Op) → Option Delta
as_delta none = none
as_delta (some ops) = some (record { ops = ops })

insert_back :
    (bs rest : List ℕ) (ops : List Op)
    → numbers_ops rest ≡ some ops
    → numbers_ops (insert_numbers bs rest) ≡ some (insert bs ∷ ops)
insert_back [] rest ops e = rw e
insert_back (b ∷ bs) rest ops e = rw (insert_back bs rest ops e)

ops_back : (ops : List Op) → numbers_ops (ops_numbers ops) ≡ some ops
ops_back [] = refl
ops_back (copy offset len ∷ ops) = rw (ops_back ops)
ops_back (insert bs ∷ ops) = insert_back bs (ops_numbers ops) ops (ops_back ops)
ops_back (unset ∷ ops) = rw (ops_back ops)

pub delta_back : (d : Delta) → as_delta (numbers_ops (ops_numbers d.ops)) ≡ some d
delta_back d = rw (ops_back d.ops)

abbrev pub codec : DeltaCodec
codec = record {
  marshal = λ d. ops_numbers d.ops;
  unmarshal = λ b. as_delta (numbers_ops b);
  unmarshal-marshal = delta_back;
}

-- A stream of whole messages. Here a description is as large as the NAR that it says, and all others are
-- small.
pub data Message : Type 0 where
  header_message : StreamHeader → Message
  chunk_message : CaChunk → Message
  nar_message : Nar → Message
  trailer_message : PathTrailer → Message

abbrev take_header : List Message → Option (StreamHeader × List Message)
take_header (header_message m ∷ rest) = some (m, rest)
take_header _ = none

abbrev take_chunk : List Message → Option (CaChunk × List Message)
take_chunk (chunk_message m ∷ rest) = some (m, rest)
take_chunk _ = none

abbrev take_nar : List Message → Option (Nar × List Message)
take_nar (nar_message m ∷ rest) = if leb m.nar_size max_size then some (m, rest) else none
take_nar _ = none

abbrev take_trailer : List Message → Option (PathTrailer × List Message)
take_trailer (trailer_message m ∷ rest) = some (m, rest)
take_trailer _ = none

pub nar_back :
    (m : Nar) (rest : List Message)
    → m.nar_size ≤ max_size
    → take_nar (nar_message m ∷ rest) ≡ some (m, rest)
nar_back m rest h = if_true (leb m.nar_size max_size) _ _ (ground (arith, h))

pub nar_refused :
    (m : Nar) (rest : List Message) → max_size < m.nar_size → take_nar (nar_message m ∷ rest) ≡ none
nar_refused m rest h = if_false (leb m.nar_size max_size) _ _ (ground (arith, h))

abbrev pub wire : Wire Message
wire = record {
  header = record {
    is_encodable = λ m. true;
    size = λ m. 1;
    marshal = λ m. header_message m ∷ [];
    unmarshal_from = take_header;
    unmarshal-marshal = λ m rest e h. refl;
    unmarshal-too_large = λ m rest h. absurd (omega (arith, h));
  };
  chunk = record {
    is_encodable = λ m. true;
    size = λ m. 1;
    marshal = λ m. chunk_message m ∷ [];
    unmarshal_from = take_chunk;
    unmarshal-marshal = λ m rest e h. refl;
    unmarshal-too_large = λ m rest h. absurd (omega (arith, h));
  };
  nar = record {
    is_encodable = λ m. true;
    size = λ m. m.nar_size;
    marshal = λ m. nar_message m ∷ [];
    unmarshal_from = take_nar;
    unmarshal-marshal = λ m rest e h. nar_back m rest h;
    unmarshal-too_large = λ m rest h. nar_refused m rest h;
  };
  trailer = record {
    is_encodable = λ m. true;
    size = λ m. 1;
    marshal = λ m. trailer_message m ∷ [];
    unmarshal_from = take_trailer;
    unmarshal-marshal = λ m rest e h. refl;
    unmarshal-too_large = λ m rest h. absurd (omega (arith, h));
  };
}

abbrev unmap : List ℕ → Bool
unmap [] = false
unmap (b ∷ bs) = true

-- An operating system on which nothing else fails.
abbrev pub os : Os
os = record {
  write = λ content bytes. (content ++ bytes, true);
  mmap = λ content n. some (take n content);
  munmap = unmap;
  close = true;
}

mmap-takes :
    (content : List ℕ) (n : ℕ) {buf : List ℕ}
    → some (take n content) ≡ some buf
    → buf ≡ take n content
mmap-takes content n e = cc

mmap-works : (content : List ℕ) (n : ℕ) → some (take n content) ≢ none
mmap-works content n e = cc

pub os-IsLawful : IsLawful os
os-IsLawful = record {
  write_appends = λ content bytes e. refl;
  mmap_shows = mmap-takes;
  munmap_empty = refl;
}

pub os-Succeeds : Succeeds os
os-Succeeds = record { lawful = os-IsLawful; writes = λ content bytes. refl; maps = mmap-works }

-- A hash that is the content itself, and a chunker that leaves all to its caller.
abbrev pub hashing : Hashing
hashing = record { blake3 = λ b. b; cut = λ content. [] }

pub hashing-IsChunker : IsChunker hashing
hashing-IsChunker = record { left = λ content. content; cut_begins = λ content. refl }

-- The engine takes the first row.
abbrev pub head {ℓ} : {A : Type ℓ} → List A → Option A
head [] = none
head (x ∷ xs) = some x

head-picks {ℓ} :
    {A : Type ℓ} (rows : List A) {row : A}
    → head rows ≡ some row
    → (i : ℕ) × (get_elem? rows i ≡ some row)
head-picks [] e = cc
head-picks (x ∷ xs) e = (0, e)

head-finds {ℓ} : {A : Type ℓ} (row : A) (rows : List A) → head (row ∷ rows) ≢ none
head-finds row rows e = cc

abbrev pub engine : Engine
engine = record { pick_file = head; pick_chunk = head }

pub engine-IsEngine : IsEngine engine
engine-IsEngine = record {
  picks_file = head-picks;
  finds_file = head-finds;
  picks_chunk = head-picks;
  finds_chunk = head-finds;
}
