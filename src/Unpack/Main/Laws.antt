-- ===== src/Unpack/Main/Laws.antt =====
-- What the arguments of dnar-unpack mean (internal/cmd/dnar-unpack/main.go).
use deltanar.Base.Text.{Text}
