-- ===== src/Dnar/Wire.antt =====
-- Length-delimited messages on a byte stream, as the protodelim library reads and writes them. The
-- stream's units are a type of their own, of which nothing is known.
use deltanar.Base.{
  ℕ, ◌^◌, ◌*◌, ◌≤◌, ◌<◌, List, [], ◌∷◌, ◌++◌, Bool, true, Option, none, some, Result, ok, err,
  library, ◌>>=◌, ◌≡◌, sym, ◌∙◌, length, All, if◌then◌else◌, if_true, if_false, Bool-cases, inl,
  inr, >>=-eq-ok, ok-injective,
}
use deltanar.Dnar.{StreamHeader, CaChunk, Nar, PathTrailer}

-- The default of `UnmarshalOptions.MaxSize`, 4 MiB.
abbrev pub max_size : ℕ
max_size = 4 * 2 ^ 20

-- `protodelim.MarshalTo` and `protodelim.UnmarshalFrom` with their default options, for one type of
-- message. A message is encoded if its strings are UTF-8. Reading takes what was written of a message of
-- at most 4 MiB, and leaves what follows it; a larger one is refused.
pub record MessageCodec (B M : Type 0) : Type 0 where
  pub is_encodable : M → Bool
  pub size : M → ℕ
  pub marshal : M → List B
  pub unmarshal_from : List B → Option (M × List B)
  pub unmarshal-marshal :
      (m : M) (rest : List B)
      → is_encodable m ≡ true
      → size m ≤ max_size
      → unmarshal_from (marshal m ++ rest) ≡ some (m, rest)
  pub unmarshal-too_large :
      (m : M) (rest : List B) → max_size < size m → unmarshal_from (marshal m ++ rest) ≡ none

pub record Wire (B : Type 0) : Type 0 where
  pub header : MessageCodec B StreamHeader
  pub chunk : MessageCodec B CaChunk
  pub nar : MessageCodec B Nar
  pub trailer : MessageCodec B PathTrailer

-- The messages one behind the other.
abbrev pub marshal_all : {B M : Type 0} → MessageCodec B M → List M → List B
marshal_all c [] = []
marshal_all c (m ∷ ms) = c.marshal m ++ marshal_all c ms

-- `protodelim.MarshalTo`: what is written of a message, or the library's error.
abbrev pub write_message : {B M : Type 0} → MessageCodec B M → M → Result (List B)
write_message c m = if c.is_encodable m then ok (c.marshal m) else err library

unfoldable pub write_messages : {B M : Type 0} → MessageCodec B M → List M → Result (List B)
write_messages c [] = ok []
write_messages c (m ∷ ms) = do
  first ← write_message c m
  rest ← write_messages c ms
  ok (first ++ rest)

abbrev pub IsEncodable : {B M : Type 0} → MessageCodec B M → M → Type 0
IsEncodable c m = c.is_encodable m ≡ true

abbrev pub IsSmall : {B M : Type 0} → MessageCodec B M → M → Type 0
IsSmall c m = c.size m ≤ max_size

abbrev pub IsReadable : {B M : Type 0} → MessageCodec B M → M → Type 0
IsReadable c m = IsEncodable c m × IsSmall c m

-- Something holds of every message of a stream.
abbrev pub AllMessages :
    {B : Type 0}
    → ((M : Type 0) → MessageCodec B M → M → Type 0)
    → Wire B
    → List Nar
    → List CaChunk
    → PathTrailer
    → Type 0
AllMessages P w nars chunks trailer =
    P StreamHeader w.header (record { length = length nars })
    × All (λ m. P Nar w.nar m) nars
    × P StreamHeader w.header (record { length = length chunks })
    × All (λ m. P CaChunk w.chunk m) chunks
    × P PathTrailer w.trailer trailer

-- Every message can be encoded, is at most 4 MiB, can be read back.
module _ {B : Type 0} (w : Wire B) (nars : List Nar) (chunks : List CaChunk)
    (trailer : PathTrailer) where
  abbrev pub AreEncodable : Type 0
  AreEncodable = AllMessages (λ M c m. IsEncodable c m) w nars chunks trailer

  abbrev pub AreSmall : Type 0
  AreSmall = AllMessages (λ M c m. IsSmall c m) w nars chunks trailer

  abbrev pub AreReadable : Type 0
  AreReadable = AllMessages (λ M c m. IsReadable c m) w nars chunks trailer

All-both :
    {A : Type 0} (P Q : A → Type 0) (xs : List A) → All P xs → All Q xs → All (λ x. P x × Q x) xs
All-both P Q [] p q = tt
All-both P Q (x ∷ xs) (p, ps) (q, qs) = ((p, q), All-both P Q xs ps qs)

pub both-AreReadable :
    {B : Type 0} (w : Wire B) (nars : List Nar) (chunks : List CaChunk) (trailer : PathTrailer)
    → AreEncodable w nars chunks trailer
    → AreSmall w nars chunks trailer
    → AreReadable w nars chunks trailer
both-AreReadable w nars chunks trailer (a, b, c, d, e) (a', b', c', d', e') = (
  (a, a'),
  All-both (λ m. IsEncodable w.nar m) (λ m. IsSmall w.nar m) nars b b',
  (c, c'),
  All-both (λ m. IsEncodable w.chunk m) (λ m. IsSmall w.chunk m) chunks d d',
  (e, e'),
)

pub write_message-ok :
    {B M : Type 0} (c : MessageCodec B M) (m : M) {out : List B}
    → write_message c m ≡ ok out
    → IsEncodable c m × (out ≡ c.marshal m)
write_message-ok c m h = elim (Bool-cases (c.is_encodable m)) [
  | inl e ↦ (e, sym (ok-injective (sym (if_true (c.is_encodable m) _ _ e) ∙ h)))
  | inr e ↦ let k = sym (if_false (c.is_encodable m) _ _ e) ∙ h in cc
]

pub write_messages-ok :
    {B M : Type 0} (c : MessageCodec B M) (ms : List M) {out : List B}
    → write_messages c ms ≡ ok out
    → All (λ m. IsEncodable c m) ms × (out ≡ marshal_all c ms)
unfolding write_messages
write_messages-ok c [] h = (tt, sym (ok-injective h))
write_messages-ok c (m ∷ ms) h =
    let (first, e, h₁) = >>=-eq-ok (write_message c m) _ h in
    let (rest, e', h₂) = >>=-eq-ok (write_messages c ms) _ h₁ in
    let (here, eq) = write_message-ok c m e in
    let (there, eq') = write_messages-ok c ms e' in
    ((here, there), sym (ok-injective h₂) ∙ rw (eq, eq'))

-- The protocol as dnar.proto states it: a header and the NARs, a header and the chunks, the trailer.
unfoldable pub dnar_stream : {B : Type 0} → Wire B → List Nar → List CaChunk → PathTrailer → List B
dnar_stream w nars chunks trailer =
    w.header.marshal (record { length = length nars })
    ++ (marshal_all w.nar nars
        ++ (w.header.marshal (record { length = length chunks })
            ++ (marshal_all w.chunk chunks ++ w.trailer.marshal trailer)))
