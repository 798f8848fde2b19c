-- ===== src/Common/Objects.antt =====
-- A `Record<string, V>` as an association list in the order of its keys, with property
-- assignment and object spread.
use Prim.Native.String.{String}
use mathlib.Core.Path.{◌≡◌, refl}
use mathlib.Core.Bool.{true, false}
use mathlib.Core.Option.{Option, none, some}
use mathlib.Core.List.{List, [], ◌∷◌}
use native.Mathlib.Omega.{arith}
use text.Mathlib.TextEquality.{eq_iff}
use email_platform_services.Common.Tests.{str_eq, if◌then◌else◌}

abbrev pub Dict : Type 0 → Type 0
Dict V = List (String × V)

module _ {V : Type 0} where
  unfoldable pub lookup : String → Dict V → Option V
  lookup name [] = none
  lookup name ((own, value) ∷ object) = if str_eq own name then some value else lookup name object

  -- `object[name] = value`: an existing key keeps its place.
  unfoldable pub insert : String → V → Dict V → Dict V
  insert name value [] = (name, value) ∷ []
  insert name value ((own, old) ∷ object) =
      let later = (own, old) ∷ insert name value object in
      if str_eq own name then (name, value) ∷ object else later

  -- `{ ...a, ...b }`.
  unfoldable pub spread : Dict V → Dict V → Dict V
  unfolding insert
  spread a [] = a
  spread a ((name, value) ∷ b) = spread (insert name value a) b

  -- The value that the last entry with the key has.
  unfoldable pub last_value : String → Dict V → Option V
  last_value name [] = none
  last_value name ((own, value) ∷ object) = elim (last_value name object) [
    | none ↦ if str_eq own name then some value else none
    | some last ↦ some last
  ]

  pub lookup-insert :
      (object : Dict V) (asked name : String) (value : V)
      → lookup asked (insert name value object)
        ≡ elim (str_eq name asked) [ true ↦ some value | false ↦ lookup asked object ]
  unfolding lookup insert
  lookup-insert [] asked name value = ground arith
  lookup-insert ((own, old) ∷ object) asked name value =
      let rest = lookup-insert object asked name value in
      ground (arith, rest, eq_iff own name, eq_iff name asked, eq_iff own asked)

  -- Nothing bound by the second dictionary falls through to the first, and all else does.
  pub lookup-spread_last :
      (asked : String) (a b : Dict V)
      → lookup asked (spread a b)
        ≡ elim (last_value asked b) [ none ↦ lookup asked a | some value ↦ some value ]
  unfolding spread last_value
  lookup-spread_last asked a [] = refl
  lookup-spread_last asked a ((name, value) ∷ b) =
      let rest = lookup-spread_last asked (insert name value a) b in
      ground (arith, rest, lookup-insert a asked name value)
