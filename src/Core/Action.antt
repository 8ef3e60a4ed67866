-- ===== src/Core/Action.antt =====
-- Async methods that change shared state and may fail: a step from a world to a result and the world
-- after it. What was done before an error stays done.
use overlay_mcp.Base.{Result, ok, err}
use overlay_mcp.Core.Errors.{Error}

abbrev pub Action : Type 0 → Type 0 → Type 0
Action W A = W → Result A Error × W

abbrev pub pure : {W A : Type 0} → A → Action W A
pure a w = (ok a, w)

abbrev pub fail : {W A : Type 0} → Error → Action W A
fail e w = (err e, w)

-- `?` on a value
abbrev pub lift : {W A : Type 0} → Result A Error → Action W A
lift r w = (r, w)

abbrev pub continue : {W A B : Type 0} → Result A Error → (A → Action W B) → Action W B
continue (ok a) f w = f a w
continue (err e) f w = (err e, w)

infixl 5 ◌>>=◌ ◌>>◌
abbrev pub ◌>>=◌ : {W A B : Type 0} → Action W A → (A → Action W B) → Action W B
◌>>=◌ m f w = let (r, w') = m w in continue r f w'

abbrev pub ◌>>◌ : {W A B : Type 0} → Action W A → Action W B → Action W B
m >> n = m >>= λ _. n

-- `body`, then the drop of a guard that it holds, whether `body` fails or not.
abbrev pub dropping : {W A : Type 0} → (W → W) → Action W A → Action W A
dropping drop body w = let (r, w') = body w in (r, drop w')
