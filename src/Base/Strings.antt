-- ===== src/Base/Strings.antt =====
-- Text as the list of its characters' codes.
use Prim.Native.Nat.{ℕ}
use mathlib.Core.List.{List, [], ◌∷◌}
use Prim.Native.String.{String}
use Prim.Native.Char.{code}

abbrev pub codes : String → List ℕ
codes String.[] = []
codes (String.◌∷◌ c s) = code c ∷ codes s
