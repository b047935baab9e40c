-- ===== src/Delta.antt =====
-- Binary deltas of file chunks (internal/delta): the message types, and what the code takes from the
-- protobuf library. A byte slice is a list of numbers.
pub mod Index
pub mod Diff
pub mod Patch
pub mod Match
pub mod Expand
pub mod Scan
pub mod Apply
pub mod RoundTrip
pub mod Safety
use deltanar.Base.{ℕ, Option, some, List, ◌≡◌}

-- `Delta_Op`: one of the two kinds of operation, or none of them set.
pub data Op : Type 0 where
  copy : ℕ → ℕ → Op
  insert : List ℕ → Op
  unset : Op

-- `Delta`
pub record Delta : Type 0 where
  pub ops : List Op

-- `proto.Marshal` and `proto.Unmarshal` on a `Delta`. A message read back from the bytes that it was
-- written to is the same message.
pub record DeltaCodec : Type 0 where
  pub marshal : Delta → List ℕ
  pub unmarshal : List ℕ → Option Delta
  pub unmarshal-marshal : (d : Delta) → unmarshal (marshal d) ≡ some d
