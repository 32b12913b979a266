-- ===== src/Base/Map.antt =====
-- A Go `map[string]V` as an association list. An entry is overwritten in place, and a removed key
-- is gone; a range over the map takes the entries in the list's order.
use Prim.Native.String.{String}
use mathlib.Core.Path.{◌≡◌, refl}
use mathlib.Core.Logic.{◌≢◌}
use mathlib.Core.Option.{Option, none, some}
use mathlib.Core.List.{List, [], ◌∷◌}
use native.Mathlib.Omega.{arith}
use text.Mathlib.Text.{◌==◌}
use text.Mathlib.TextEquality.{eq_iff}
use text.Mathlib.TextPositions.{eq_refl}
use air_fi.Base.Tests.{if◌then◌else◌}

abbrev pub Map {ℓ} : Type ℓ → Type ℓ
Map V = List (String × V)

module _ {ℓ} {V : Type ℓ} where
  unfoldable pub lookup : String → Map V → Option V
  lookup key [] = none
  lookup key ((first, value) ∷ rest) = if first == key then some value else lookup key rest

  unfoldable pub insert : String → V → Map V → Map V
  insert key value [] = (key, value) ∷ []
  insert key value ((first, present) ∷ rest) =
      if first == key then (first, value) ∷ rest else (first, present) ∷ insert key value rest

  unfoldable pub erase : String → Map V → Map V
  erase key [] = []
  erase key ((first, present) ∷ rest) =
      if first == key then erase key rest else (first, present) ∷ erase key rest

  abbrev pub values : Map V → List V
  values [] = []
  values ((key, value) ∷ rest) = value ∷ values rest

  pub lookup-insert :
      (key wanted : String) (value : V) (entries : Map V)
      → lookup wanted (insert key value entries)
        ≡ (if key == wanted then some value else lookup wanted entries)
  unfolding lookup insert
  lookup-insert key wanted value [] = refl
  lookup-insert key wanted value ((first, present) ∷ rest) = ground (
    arith,
    lookup-insert key wanted value rest,
    eq_iff first key,
    eq_iff first wanted,
    eq_iff key wanted,
  )

  pub lookup-insert_self :
      (key : String) (value : V) (entries : Map V)
      → lookup key (insert key value entries) ≡ some value
  lookup-insert_self key value entries = simp (eq_refl, lookup-insert)

  pub lookup-erase :
      (k j : String) (m : Map V) → lookup j (erase k m) ≡ (if k == j then none else lookup j m)
  unfolding lookup erase
  lookup-erase k j [] = ground arith
  lookup-erase k j ((i, w) ∷ m) =
      ground (arith, eq_iff k j, eq_iff i k, eq_iff i j, lookup-erase k j m)

  pub lookup-erase_self : (k : String) (m : Map V) → lookup k (erase k m) ≡ none
  lookup-erase_self k m = simp (lookup-erase, eq_refl)

  pub lookup-insert_ne :
      (k j : String) (v : V) (m : Map V) → j ≢ k → lookup j (insert k v m) ≡ lookup j m
  lookup-insert_ne k j v m ne = ground (arith, eq_iff k j, lookup-insert k j v m)

  pub lookup-erase_ne : (k j : String) (m : Map V) → j ≢ k → lookup j (erase k m) ≡ lookup j m
  lookup-erase_ne k j m ne = ground (arith, eq_iff k j, lookup-erase k j m)
