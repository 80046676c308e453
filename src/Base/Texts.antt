-- ===== src/Base/Texts.antt =====
-- Python's handling of texts, where the library has none.
use Prim.Native.Char.{code}
use Prim.Native.String.{String, [], ◌∷◌}
use mathlib.Core.Bool.{Bool, true, false, ◌&&◌}
use autocad_mechanical_harne.Base.Tests.{nat_eq}

-- str.startswith
unfoldable pub startswith : String → String → Bool
startswith s [] = true
startswith [] (p ∷ ps) = false
startswith (c ∷ s) (p ∷ ps) = nat_eq (code c) (code p) && startswith s ps
