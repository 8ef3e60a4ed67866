-- ===== src/Base/Dict.antt =====
-- `HashMap<String, V>` as an association list; the order of its entries is any order.
use Prim.Native.String.{String}
use mathlib.Core.Path.{◌≡◌, refl}
use mathlib.Core.List.{List, [], ◌∷◌, map}
use mathlib.Core.Option.{Option, none, some}
use native.Mathlib.Omega.{arith}
use text.Mathlib.TextEquality.{eq_iff}
use overlay_mcp.Base.Tests.{◌==◌, if◌then◌else◌}

module _ {ℓ} {V : Type ℓ} where
  -- `get`: the value of the first entry with the key.
  unfoldable pub lookup : (key : String) → (entries : List (String × V)) → Option V
  lookup key [] = none
  lookup key ((name, value) ∷ entries) = if name == key then some value else lookup key entries

  -- `insert`: a value that the key has is replaced in its place.
  unfoldable pub insert : (key : String) → V → List (String × V) → List (String × V)
  insert key new [] = (key, new) ∷ []
  insert key new ((name, value) ∷ entries) =
      let kept = insert key new entries in
      if name == key then (name, new) ∷ entries else (name, value) ∷ kept

  unfoldable pub remove : (key : String) → List (String × V) → List (String × V)
  remove key [] = []
  remove key ((name, value) ∷ entries) =
      let rest = remove key entries in if name == key then rest else (name, value) ∷ rest

  abbrev pub values : List (String × V) → List V
  values = map (λ entry. entry.1)

  pub lookup-insert :
      (key other : String) (new : V) (entries : List (String × V))
      → lookup other (insert key new entries)
        ≡ (if key == other then some new else lookup other entries)
  unfolding insert lookup
  lookup-insert key other new [] = refl
  lookup-insert key other new ((name, value) ∷ entries) = ground (
    arith,
    lookup-insert key other new entries,
    eq_iff name key,
    eq_iff key other,
    eq_iff name other,
  )

  pub lookup-remove :
      (key other : String) (entries : List (String × V))
      → lookup other (remove key entries) ≡ (if key == other then none else lookup other entries)
  unfolding remove lookup
  lookup-remove key other [] = ground arith
  lookup-remove key other ((name, value) ∷ entries) =
      ground (
        arith,
        lookup-remove key other entries,
        eq_iff name key,
        eq_iff key other,
        eq_iff name other,
      )
