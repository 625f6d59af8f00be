-- ===== src/Prelude/Dictionaries.antt =====
-- Python's `dict` with text keys: an association list in insertion order, each key once.
use Prim.Native.String.{String}
use mathlib.Core.Path.{◌≡◌}
use mathlib.Core.Option.{Option, none, some}
use mathlib.Core.List.{List, [], ◌∷◌}
use native.Mathlib.Omega.{arith}
use text.Mathlib.Text.{◌==◌ as str_eq}
use text.Mathlib.TextEquality.{eq_iff}
use local_smarthinq.Prelude.Tests.{if◌then◌else◌}

abbrev pub Dict {ℓ} : Type ℓ → Type ℓ
Dict V = List (String × V)

module _ {ℓ} {V : Type ℓ} where
  -- `d.get(k)`
  unfoldable pub find : String → Dict V → Option V
  find k [] = none
  find k ((j, v) ∷ d) = let later = find k d in if str_eq j k then some v else later

  -- `d[k] = v`: an old key keeps its place, a new one goes to the end.
  unfoldable pub put : String → V → Dict V → Dict V
  put k v [] = (k, v) ∷ []
  put k v ((j, w) ∷ d) = let later = put k v d in if str_eq j k then (j, v) ∷ d else (j, w) ∷ later

  -- `d.pop(k, None)`
  unfoldable pub pop : String → Dict V → Dict V
  pop k [] = []
  pop k ((j, w) ∷ d) = let later = pop k d in if str_eq j k then later else (j, w) ∷ later

  pub find-put :
      (k j : String) (v : V) (d : Dict V)
      → find j (put k v d) ≡ (if str_eq k j then some v else find j d)
  unfolding find put
  find-put k j v [] = ground arith
  find-put k j v ((i, w) ∷ d) = ground (arith, eq_iff k j, eq_iff i k, eq_iff i j, find-put k j v d)

  pub find-pop :
      (k j : String) (d : Dict V) → find j (pop k d) ≡ (if str_eq k j then none else find j d)
  unfolding find pop
  find-pop k j [] = ground arith
  find-pop k j ((i, w) ∷ d) = ground (arith, eq_iff k j, eq_iff i k, eq_iff i j, find-pop k j d)
