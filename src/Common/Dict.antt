-- ===== src/Common/Dict.antt =====
-- Go maps with text keys, as association lists: the first entry of a key counts.
use huba.Common.Tests.{str_eq, if◌then◌else◌}
use Prim.Native.String.{String}
use mathlib.Core.Path.{◌≡◌}
use mathlib.Core.List.{List, [], ◌∷◌}
use mathlib.Core.Option.{Option, none, some}
use native.Mathlib.Omega.{arith}
use text.Mathlib.TextEquality.{eq_iff}

abbrev pub Dict : Type 0 → Type 0
Dict V = List (String × V)

module _ {V : Type 0} where
  -- `delete(m, key)`
  unfoldable pub erase : String → Dict V → Dict V
  erase key [] = []
  erase key ((name, value) ∷ rest) =
      let kept = erase key rest in if str_eq name key then kept else (name, value) ∷ kept

  -- `m[key] = value`
  unfoldable pub insert : String → V → Dict V → Dict V
  insert key value entries = (key, value) ∷ erase key entries

  -- `value, ok := m[key]`
  unfoldable pub lookup : String → Dict V → Option V
  lookup key [] = none
  lookup key ((name, value) ∷ rest) =
      let further = lookup key rest in if str_eq name key then some value else further

  pub lookup-erase :
      (key other : String) (entries : Dict V)
      → lookup other (erase key entries) ≡ (if str_eq key other then none else lookup other entries)
  unfolding erase lookup
  lookup-erase key other [] = ground arith
  lookup-erase key other ((name, value) ∷ rest) =
      ground
        (arith, lookup-erase key other rest, eq_iff name key, eq_iff name other, eq_iff key other)

  pub lookup-insert :
      (key other : String) (value : V) (entries : Dict V)
      → lookup other (insert key value entries)
        ≡ (if str_eq key other then some value else lookup other entries)
  unfolding insert lookup
  lookup-insert key other value entries = ground (arith, lookup-erase key other entries)
