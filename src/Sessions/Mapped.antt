-- ===== src/Sessions/Mapped.antt =====
-- Chains whose first result is mapped to the sum type of the sessions.
use mathlib.Core.Option
use overlay_mcp.Base.{◌≡◌, refl, ap, ◌∙◌, Option, none, some, Result, ok, err, ok_or}
use overlay_mcp.Core.Errors.{Error}
use overlay_mcp.Core.Action.{Action, continue, lift, ◌>>=◌}
use overlay_mcp.Sessions.{mapped}

-- Chains that begin with a result and with the same one mapped.
continue-mapped :
    {W A B C : Type 0} (h : A → B) (x : Result A Error × W) (f : B → Action W C)
    (g : A → Action W C)
    → ((a : A) (v : W) → f (h a) v ≡ g a v)
    → continue (mapped h x).0 f (mapped h x).1 ≡ continue x.0 g x.1
continue-mapped h (ok a, v) f g e = e a v
continue-mapped h (err _, v) f g e = refl

pub mapped-cong :
    {W A B C : Type 0} (h : A → B) (m' : Action W B) (m : Action W A) (f : B → Action W C)
    (g : A → Action W C) (w : W)
    → m' w ≡ mapped h (m w)
    → ((a : A) (v : W) → f (h a) v ≡ g a v)
    → (m' >>= f) w ≡ (m >>= g) w
mapped-cong h m' m f g w same e = ap (λ x. continue x.0 f x.1) same ∙ continue-mapped h (m w) f g e

pub found_mapped :
    {W A B : Type 0} (h : A → B) (e : Error) (x : Result (Option A) Error × W)
    → continue
        (mapped (Option.map h) x).0
        (λ found. lift (ok_or found e))
        (mapped (Option.map h) x).1
      ≡ mapped h (continue x.0 (λ found. lift (ok_or found e)) x.1)
found_mapped h e (ok none, u) = refl
found_mapped h e (ok (some _), u) = refl
found_mapped h e (err _, u) = refl

pub created_mapped :
    {W X A B : Type 0} (h : A → B) (create : X → Action W A) (x : Result X Error × W)
    → continue x.0 (λ url u. mapped h (create url u)) x.1 ≡ mapped h (continue x.0 create x.1)
created_mapped h create (ok _, u) = refl
created_mapped h create (err _, u) = refl
