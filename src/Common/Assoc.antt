-- ===== src/Common/Assoc.antt =====
-- A Go map as an association list. A range over a map visits the entries in any order.
use Prim.Native.String.{String}
use mathlib.Core.Path.{◌≡◌, refl}
use mathlib.Core.Option.{Option, none, some}
use mathlib.Core.List.{List, [], ◌∷◌}
use native.Mathlib.Omega.{arith}
use text.Mathlib.Text.{◌==◌}
use text.Mathlib.TextEquality.{eq_iff}
use sf_operator.Common.Tests.{if◌then◌else◌}

abbrev pub Assoc {ℓ} : Type ℓ → Type ℓ
Assoc V = List (String × V)

module _ {ℓ} {V : Type ℓ} where
  -- m[key], with the presence flag.
  unfoldable pub lookup : String → Assoc V → Option V
  lookup key [] = none
  lookup key ((name, value) ∷ rest) = if name == key then some value else lookup key rest

  -- delete(m, key)
  unfoldable pub erase : String → Assoc V → Assoc V
  erase key [] = []
  erase key ((name, value) ∷ rest) =
      let kept = erase key rest in if name == key then kept else (name, value) ∷ kept

  -- m[key] = new
  unfoldable pub insert : String → V → Assoc V → Assoc V
  insert key new [] = (key, new) ∷ []
  insert key new ((name, old) ∷ rest) =
      if name == key then (key, new) ∷ rest else (name, old) ∷ insert key new rest

  pub lookup-erase :
      (key other : String) (entries : Assoc V)
      → lookup other (erase key entries) ≡ (if key == other then none else lookup other entries)
  unfolding lookup erase
  lookup-erase key other [] = ground arith
  lookup-erase key other ((name, value) ∷ rest) =
      ground
        (arith, eq_iff name key, eq_iff name other, eq_iff key other, lookup-erase key other rest)

  pub lookup-insert :
      (key other : String) (new : V) (entries : Assoc V)
      → lookup other (insert key new entries)
        ≡ (if key == other then some new else lookup other entries)
  unfolding lookup insert
  lookup-insert key other new [] = refl
  lookup-insert key other new ((name, old) ∷ rest) = ground (
    arith,
    eq_iff name key,
    eq_iff name other,
    eq_iff key other,
    lookup-insert key other new rest,
  )

pub ruleset map_laws = (lookup-insert, lookup-erase)
