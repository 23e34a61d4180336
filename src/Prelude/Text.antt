-- ===== src/Prelude/Text.antt =====
-- Texts put together from parts, as by `fmt.Sprintf` with `%s` and by `+`.
use Prim.Native.String
use Prim.Native.String.{String}
use mathlib.Core.List.{List, [], ◌∷◌}

abbrev pub concat : List String → String
concat [] = ""
concat (s ∷ ss) = String.◌++◌ s (concat ss)
