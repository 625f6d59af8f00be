-- ===== src/App/Text.antt =====
-- `str.endswith`, by which the server routes.
use Prim.Native.String.{String, [], ◌∷◌}
use mathlib.Core.Bool.{Bool, ◌||◌}
use text.Mathlib.Text.{◌==◌}

unfoldable pub ends_with : String → String → Bool
ends_with suffix [] = "" == suffix
ends_with suffix (c ∷ cs) = (c ∷ cs) == suffix || ends_with suffix cs
