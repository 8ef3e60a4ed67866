-- ===== src/Core/Runs.antt =====
-- What an action leaves behind, and what its success says of its parts.
use overlay_mcp.Base.{◌≡◌, refl, Result, ok, err}
use overlay_mcp.Core.Errors.{Error}
use overlay_mcp.Core.Action.{Action, continue, ◌>>=◌}

module _ {W A B : Type 0} where
  continue-ok :
      (r : Result A Error) (f : A → Action W B) (w : W) (b : B)
      → (continue r f w).0 ≡ ok b
      → (a : A) × (r ≡ ok a) × ((f a w).0 ≡ ok b) × (continue r f w ≡ f a w)
  continue-ok (ok a) f w b h = (a, refl, h, refl)
  continue-ok (err e) f w b h = absurd (cc)

  -- Where a chain succeeds, so did its first part, and the chain is the rest on what that gave.
  pub >>=-ok :
      (m : Action W A) (f : A → Action W B) (w : W) (b : B)
      → ((m >>= f) w).0 ≡ ok b
      → (a : A) × ((m w).0 ≡ ok a) × ((f a (m w).1).0 ≡ ok b) × ((m >>= f) w ≡ f a (m w).1)
  >>=-ok m f w b h = continue-ok (m w).0 f (m w).1 b h

  continue-keeps :
      (P : W → Type 0) (r : Result A Error) (f : A → Action W B) (w : W)
      → P w
      → ((a : A) → r ≡ ok a → P w → P (f a w).1)
      → P (continue r f w).1
  continue-keeps P (ok a) f w p q = q a refl p
  continue-keeps P (err e) f w p q = p

  -- What the first part makes true, and the rest keeps, is true after a chain, whether it succeeds or not.
  pub >>=-keeps :
      (P : W → Type 0) (m : Action W A) (f : A → Action W B) (w : W)
      → P (m w).1
      → ((a : A) → (m w).0 ≡ ok a → P (m w).1 → P (f a (m w).1).1)
      → P ((m >>= f) w).1
  >>=-keeps P m f w p q = continue-keeps P (m w).0 f (m w).1 p q

  continue-cong :
      (r : Result A Error) (f g : A → Action W B) (w : W)
      → ((a : A) (v : W) → f a v ≡ g a v)
      → continue r f w ≡ continue r g w
  continue-cong (ok a) f g w h = h a w
  continue-cong (err e) f g w h = refl

  -- Chains with rests that agree agree.
  pub >>=-cong :
      (m : Action W A) (f g : A → Action W B) (w : W)
      → ((a : A) (v : W) → f a v ≡ g a v)
      → (m >>= f) w ≡ (m >>= g) w
  >>=-cong m f g w h = continue-cong (m w).0 f g (m w).1 h
