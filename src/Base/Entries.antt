-- ===== src/Base/Entries.antt =====
-- What is true of each entry of a dictionary.
use Prim.Native.String.{String}
use mathlib.Core.Path.{◌≡◌, refl, sym, subst}
use mathlib.Core.Bool.{Bool, true, false}
use mathlib.Core.List.{List, [], ◌∷◌}
use mathlib.Core.Option.{some}
use text.Mathlib.TextEquality.{eq_iff}
use overlay_mcp.Base.Tests.{◌==◌, if◌then◌else◌}
use overlay_mcp.Base.Dict.{lookup, insert, remove}
use overlay_mcp.Base.Lists.{All}

module _ {V : Type 0} (P : String × V → Type 0) where
  pub lookup-All :
      (key : String) (entries : List (String × V)) (v : V)
      → All P entries
      → lookup key entries ≡ some v
      → P (key, v)
  unfolding lookup
  lookup-All key [] v h e = absurd (cc)
  lookup-All key ((name, x) ∷ entries) v (p, h) e =
      go (name == key) refl (lookup-All key entries v h)
    where
      go : (b : Bool) → name == key ≡ b → (lookup key entries ≡ some v → P (key, v)) → P (key, v)
      go true t ih =
          let same : some x ≡ some v =
            subst (λ b. (if b then some x else lookup key entries) ≡ some v) t e in
          let value : x ≡ v = cc same in
          subst (λ k. P (k, v)) ((eq_iff name key).0 t) (subst (λ y. P (name, y)) value p)
      go false t ih = ih (subst (λ b. (if b then some x else lookup key entries) ≡ some v) t e)

  pub insert-All :
      (key : String) (v : V) (entries : List (String × V))
      → P (key, v)
      → All P entries
      → All P (insert key v entries)
  unfolding insert
  insert-All key v [] q h = (q, tt)
  insert-All key v ((name, x) ∷ entries) q (p, h) =
      go (name == key) refl (insert-All key v entries q h)
    where
      go :
          (b : Bool)
          → name == key ≡ b
          → All P (insert key v entries)
          → All P (if b then (name, v) ∷ entries else (name, x) ∷ insert key v entries)
      go true t r = (subst (λ k. P (k, v)) (sym ((eq_iff name key).0 t)) q, h)
      go false t r = (p, r)

  pub remove-All :
      (key : String) (entries : List (String × V)) → All P entries → All P (remove key entries)
  unfolding remove
  remove-All key [] h = h
  remove-All key ((name, x) ∷ entries) (p, h) = go (name == key) (remove-All key entries h)
    where
      go :
          (b : Bool)
          → All P (remove key entries)
          → All P (if b then remove key entries else (name, x) ∷ remove key entries)
      go true r = r
      go false r = (p, r)
