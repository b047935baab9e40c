-- ===== src/Unpack/Nar/Sink.antt =====
-- The NAR writer of go-nix, as an interface, and what `writeNAR` keeps while it writes.
use deltanar.Base.{ℕ, List, Bool, Option, Result, ◌>>=◌, of_option, library, ok}
use deltanar.Base.Int.{ℤ}
use deltanar.Base.Text.{Text}

pub data HeaderType : Type 0 where
  type_regular type_directory type_symlink : HeaderType

-- `nar.Header`
pub record Header : Type 0 where
  pub path : Text
  pub type : HeaderType
  pub size : ℤ
  pub executable : Bool
  pub link_target : Text

-- `nar.Writer` over a stream: `NewWriter`, `WriteHeader`, `Write` and `Close`, each of which may fail.
-- Two writes are one write of both.
pub record NarWriter (W : Type 0) : Type 1 where
  pub Writing : Type 0
  pub new_writer : W → Option Writing
  pub write_header : Writing → Header → Option Writing
  pub write : Writing → List ℕ → Option Writing
  pub close : Writing → Option W

-- The writer, and the files that are open and mapped, by their paths.
pub record State {W : Type 0} (nw : NarWriter W) : Type 0 where
  pub writer : nw.Writing
  pub input_fds : List (Text × List ℕ)
  pub input_data : List (Text × List ℕ)

module _ {W : Type 0} (nw : NarWriter W) where
  unfoldable pub put_header : Header → State nw → Result (State nw)
  put_header h s = do
    writer ← of_option library (nw.write_header s.writer h)
    ok (record s { writer = writer })

  unfoldable pub put : List ℕ → State nw → Result (State nw)
  put bytes s = do
    writer ← of_option library (nw.write s.writer bytes)
    ok (record s { writer = writer })
