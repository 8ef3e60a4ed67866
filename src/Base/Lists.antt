-- ===== src/Base/Lists.antt =====
-- Lists measured and indexed by native numbers, under the library's names, and predicates on them.
use Prim.Native.Nat.{ℕ, zero, suc, ◌+◌, ◌<◌}
use mathlib.Core.Path.{◌≡◌, refl, ap, ◌∙◌}
use mathlib.Core.Bool.{Bool, true, false, ◌&&◌, ◌||◌}
use mathlib.Core.List.{List, [], ◌∷◌, ◌++◌, map}
use mathlib.Core.Option.{Option, none, some}
use native.Mathlib.Omega.{arith}
use text.Mathlib.Text.{◌==◌}
use Prim.Native.String.{String}

module _ {ℓ} {A : Type ℓ} where
  abbrev pub length : List A → ℕ
  length [] = 0
  length (x ∷ xs) = suc (length xs)

  abbrev pub get_elem? : List A → ℕ → Option A
  get_elem? [] i = none
  get_elem? (x ∷ xs) zero = some x
  get_elem? (x ∷ xs) (suc i) = get_elem? xs i

  pub length-append : (xs ys : List A) → length (xs ++ ys) ≡ length xs + length ys
  length-append [] ys = omega arith
  length-append (x ∷ xs) ys = omega (arith, length-append xs ys)

  abbrev pub take : ℕ → List A → List A
  take zero xs = []
  take (suc n) [] = []
  take (suc n) (x ∷ xs) = x ∷ take n xs

  abbrev pub drop : ℕ → List A → List A
  drop zero xs = xs
  drop (suc n) [] = []
  drop (suc n) (x ∷ xs) = drop n xs

  -- What is left at an index begins with the element there.
  pub drop-get_elem? :
      (xs : List A) (i : ℕ) (a : A) → get_elem? xs i ≡ some a → drop i xs ≡ a ∷ drop (suc i) xs
  drop-get_elem? [] i a h = absurd (cc)
  drop-get_elem? (x ∷ xs) zero a h = ground arith
  drop-get_elem? (x ∷ xs) (suc i) a h = drop-get_elem? xs i a h

  pub take_all : (xs : List A) → take (length xs) xs ≡ xs
  take_all [] = refl
  take_all (x ∷ xs) = ap (◌∷◌ x) (take_all xs)

  -- An index in range has an element.
  pub get_elem?-some : (xs : List A) (i : ℕ) → i < length xs → (a : A) × (get_elem? xs i ≡ some a)
  get_elem?-some [] i h = absurd (omega arith)
  get_elem?-some (x ∷ xs) zero h = (x, refl)
  get_elem?-some (x ∷ xs) (suc i) h = get_elem?-some xs i (omega arith)

  -- `P` at every element, as nested pairs.
  abbrev pub All {κ} : (A → Type κ) → List A → Type κ
  All P [] = Unit
  All P (x ∷ xs) = P x × All P xs

  -- An element at which `P` holds, with its place.
  pub data Any {κ} (P : A → Type κ) : List A → Type (ℓ ⊔ κ) where
    here : {x : A} {xs : List A} → P x → Any P (x ∷ xs)
    there : {x : A} {xs : List A} → Any P xs → Any P (x ∷ xs)

  pub All-map {κ ν} :
      {P : A → Type κ} {Q : A → Type ν} (f : (x : A) → P x → Q x) (xs : List A)
      → All P xs
      → All Q xs
  All-map f [] h = tt
  All-map f (x ∷ xs) h = (f x h.0, All-map f xs h.1)

  -- `iter().all(p)`
  abbrev pub all : (A → Bool) → List A → Bool
  all p [] = true
  all p (x ∷ xs) = p x && all p xs

module _ {ℓ} {A : Type ℓ} where
  pub length-map {κ} : {B : Type κ} (f : A → B) (xs : List A) → length (map f xs) ≡ length xs
  length-map f [] = refl
  length-map f (x ∷ xs) = ap suc (length-map f xs)

-- A `for` loop that returns at the first item which gives a value.
module _ {ℓ κ} {A : Type ℓ} {B : Type κ} (f : A → Option B) where
  unfoldable pub find_map : List A → Option B
  find_map [] = none
  find_map (x ∷ xs) = elim (f x) [ some b ↦ some b | none ↦ find_map xs ]

  -- `b` is what the first item that gives a value gives.
  abbrev pub First : List A → B → Type (ℓ ⊔ κ)
  First xs b =
      (before : List A) × (x : A) × (after : List A) × (xs ≡ before ++ x ∷ after)
      × All (λ y. f y ≡ none) before
      × (f x ≡ some b)

  pub find_map-First : (xs : List A) (b : B) → find_map xs ≡ some b → First xs b
  unfolding find_map
  find_map-First [] b h = absurd (cc)
  find_map-First (x ∷ xs) b h = go (f x) refl (find_map-First xs b)
    where
      go : (o : Option B) → f x ≡ o → (find_map xs ≡ some b → First xs b) → First (x ∷ xs) b
      go (some c) e ih = ([], x, xs, refl, tt, e ∙ (rw (e, find_map) at h))
      go none e ih =
          let (before, y, after, p, q, r) = ih (rw (e, find_map) at h) in
          (x ∷ before, y, after, ap (◌∷◌ x) p, (e, q), r)

  find_map-append :
      (before : List A) (x : A) (after : List A) (b : B)
      → All (λ y. f y ≡ none) before
      → f x ≡ some b
      → find_map (before ++ x ∷ after) ≡ some b
  unfolding find_map
  find_map-append [] x after b q r = rw (r, find_map)
  find_map-append (y ∷ before) x after b q r =
      rw (q.0, find_map) (find_map-append before x after b q.1 r)

  pub First-find_map : (xs : List A) (b : B) → First xs b → find_map xs ≡ some b
  First-find_map xs b (before, x, after, p, q, r) = rw p (find_map-append before x after b q r)

  pub find_map-none : (xs : List A) → find_map xs ≡ none → All (λ y. f y ≡ none) xs
  unfolding find_map
  find_map-none [] h = tt
  find_map-none (x ∷ xs) h = go (f x) refl (find_map-none xs)
    where
      go :
          (o : Option B)
          → f x ≡ o
          → (find_map xs ≡ none → All (λ y. f y ≡ none) xs)
          → All (λ y. f y ≡ none) (x ∷ xs)
      go (some c) e ih = absurd (let bad : some c ≡ none = rw (e, find_map) at h in cc)
      go none e ih = (e, ih (rw (e, find_map) at h))

  pub none-find_map : (xs : List A) → All (λ y. f y ≡ none) xs → find_map xs ≡ none
  unfolding find_map
  none-find_map [] q = refl
  none-find_map (x ∷ xs) q = rw (q.0, find_map) (none-find_map xs q.1)

-- `HashSet<String>::contains`; a set is a list of texts, in any order.
abbrev pub contains : List String → String → Bool
contains [] a = false
contains (x ∷ xs) a = (x == a) || contains xs a
