-- ===== src/Base/Outcome.antt =====
-- Rust's `Result`, its `?` and `map_err`, and a computation that may panic.
use mathlib.Core.Path.{◌≡◌, refl}
use mathlib.Core.Bool.{Bool, true, false}
use mathlib.Core.Option.{Option, none, some}
use overlay_mcp.Base.Tests.{if◌then◌else◌}

pub data Result {ℓ κ} (A : Type ℓ) (E : Type κ) : Type (ℓ ⊔ κ) where
  ok : A → Result A E
  err : E → Result A E

-- `?`
infixl 5 ◌>>=◌ ◌>>◌
abbrev pub ◌>>=◌ {ℓ κ ν} :
    {A : Type ℓ} {B : Type κ} {E : Type ν} → Result A E → (A → Result B E) → Result B E
ok a >>= f = f a
err e >>= f = err e

abbrev pub ◌>>◌ {ℓ κ ν} :
    {A : Type ℓ} {B : Type κ} {E : Type ν} → Result A E → Result B E → Result B E
m >> k = m >>= λ _. k

abbrev pub map_err {ℓ κ ν} :
    {A : Type ℓ} {E : Type κ} {F : Type ν} → (E → F) → Result A E → Result A F
map_err f (ok a) = ok a
map_err f (err e) = err (f e)

abbrev pub ok_or {ℓ κ} : {A : Type ℓ} {E : Type κ} → Option A → E → Result A E
ok_or none e = err e
ok_or (some a) e = ok a

-- Where a chain is good, so was its first part, and the rest is good on what that gave.
pub >>=-eq-ok {ℓ κ ν} :
    {A : Type ℓ} {B : Type κ} {E : Type ν} (first : Result A E) (then' : A → Result B E) {b : B}
    → (first >>= then') ≡ ok b
    → (got : A) × (first ≡ ok got) × (then' got ≡ ok b)
>>=-eq-ok (ok got) then' good = (got, refl, good)
>>=-eq-ok (err failure) then' good = cc

pub ok_or-eq-ok {ℓ κ} :
    {A : Type ℓ} {E : Type κ} (o : Option A) (e : E) {a : A} → ok_or o e ≡ ok a → o ≡ some a
ok_or-eq-ok none e h = absurd (cc)
ok_or-eq-ok (some b) e h = cc

-- A test whose failure is an error has passed where the result is good.
pub if-eq-ok {ℓ κ} :
    {A : Type ℓ} {E : Type κ} (b : Bool) (r : Result A E) (e : E) {a : A}
    → (if b then r else err e) ≡ ok a
    → (b ≡ true) × (r ≡ ok a)
if-eq-ok true r e h = (refl, h)
if-eq-ok false r e h = absurd (cc)
