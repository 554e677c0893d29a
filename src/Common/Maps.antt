-- ===== src/Common/Maps.antt =====
-- Go's maps with string keys, as association lists in the order in which a `range` visits them.
-- The order is unspecified in Go: what is proved for every list is proved for every order.
use Prim.Native.String.{String}
use mathlib.Core.Path.{◌≡◌, refl}
use mathlib.Core.List.{List, [], ◌∷◌, map}
use mathlib.Core.Option.{Option, none, some}
use native.Mathlib.Omega.{arith}
use text.Mathlib.Text.{◌==◌}
use text.Mathlib.TextEquality.{eq_iff}
use step_runner.Common.Tests.{if◌then◌else◌, or_else}

abbrev pub Map {ℓ} : Type ℓ → Type ℓ
Map V = List (String × V)

module _ {ℓ} {V : Type ℓ} where
  -- m[k], as the pair of a value and `ok`
  unfoldable pub lookup : String → Map V → Option V
  lookup k [] = none
  lookup k ((j, v) ∷ m) = if j == k then some v else lookup k m

  -- m[k] = v
  unfoldable pub put : String → V → Map V → Map V
  put k v [] = (k, v) ∷ []
  put k v ((j, w) ∷ m) = if j == k then (k, v) ∷ m else (j, w) ∷ put k v m

  -- delete(m, k)
  unfoldable pub delete : String → Map V → Map V
  delete k [] = []
  delete k ((j, v) ∷ m) = let rest = delete k m in if j == k then rest else (j, v) ∷ rest

  -- maps.Copy(dst, src)
  unfoldable pub copy : Map V → Map V → Map V
  copy dst [] = dst
  copy dst ((k, v) ∷ src) = put k v (copy dst src)

  abbrev pub values : Map V → List V
  values m = map (λ b. b.1) m

  pub lookup-put :
      (k j : String) (v : V) (m : Map V)
      → lookup j (put k v m) ≡ (if k == j then some v else lookup j m)
  unfolding lookup put
  lookup-put k j v [] = refl
  lookup-put k j v ((i, w) ∷ m) =
      ground (arith, eq_iff k j, eq_iff i k, eq_iff i j, lookup-put k j v m)

  pub lookup-delete :
      (k j : String) (m : Map V) → lookup j (delete k m) ≡ (if k == j then none else lookup j m)
  unfolding lookup delete
  lookup-delete k j [] = ground arith
  lookup-delete k j ((i, w) ∷ m) =
      ground (arith, eq_iff k j, eq_iff i k, eq_iff i j, lookup-delete k j m)

  -- What the source map holds wins.
  pub lookup-copy :
      (j : String) (dst src : Map V)
      → lookup j (copy dst src) ≡ or_else (lookup j src) (lookup j dst)
  unfolding lookup copy
  lookup-copy j dst [] = refl
  lookup-copy j dst ((k, v) ∷ src) =
      ground (arith, lookup-put k j v (copy dst src), lookup-copy j dst src)

-- m[k] of a map[string]string: "" if the key is missing
abbrev pub text_or_empty : Option String → String
text_or_empty none = ""
text_or_empty (some v) = v

abbrev pub text_at : String → Map String → String
text_at k m = text_or_empty (lookup k m)
