-- ===== src/Common/Maps.antt =====
-- Go's `map[string]V` as an association list. Its order stands for the order of `range`, which Go
-- leaves open, so that a theorem over every list holds for every order.
use Prim.Native.String.{String}
use mathlib.Core.Path.{◌≡◌, refl}
use mathlib.Core.Option.{Option, none, some}
use mathlib.Core.List.{List, [], ◌∷◌}
use native.Mathlib.Omega.{arith}
use text.Mathlib.Text.{◌==◌ as str_eq}
use text.Mathlib.TextEquality.{eq_iff}
use health_monitor_sre_engin.Common.Tests.{if◌then◌else◌}

abbrev pub Dict {ℓ} : Type ℓ → Type ℓ
Dict V = List (String × V)

module _ {ℓ} {V : Type ℓ} where
  -- v, ok := m[k]
  unfoldable pub lookup : String → Dict V → Option V
  lookup k [] = none
  lookup k ((j, v) ∷ m) = if str_eq j k then some v else lookup k m

  -- m[k] = v
  unfoldable pub insert : String → V → Dict V → Dict V
  insert k v [] = (k, v) ∷ []
  insert k v ((j, w) ∷ m) = if str_eq j k then (k, v) ∷ m else (j, w) ∷ insert k v m

  -- what is asked for after m[key] = value
  pub lookup-insert :
      (key asked : String) (value : V) (m : Dict V)
      → lookup asked (insert key value m)
        ≡ (if str_eq key asked then some value else lookup asked m)
  unfolding insert lookup
  lookup-insert key asked value [] = refl
  lookup-insert key asked value ((first, old) ∷ rest) = ground (
    arith,
    lookup-insert key asked value rest,
    eq_iff first asked,
    eq_iff first key,
    eq_iff key asked,
  )

-- m[k] at a string map: the empty text where the key is missing
unfoldable pub text_at : String → Dict String → String
unfolding lookup
text_at k m = elim (lookup k m) [ none ↦ "" | some v ↦ v ]
