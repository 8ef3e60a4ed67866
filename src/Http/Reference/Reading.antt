-- ===== src/Http/Reference/Reading.antt =====
-- Which references are read back from their text.
use Prim.Native.Char.{Char, code}
use Prim.Native.String.{[], ◌∷◌}
use mathlib.Core.List.{List, [], ◌∷◌}
use text.Mathlib.TextLemmas.{nil-append, cons-append, append_assoc}
use overlay_mcp.Base.{
  String, ◌<>◌, ◌≡◌, refl, sym, ap, ◌∙◌, subst, ◌↔◌, ℕ, Bool, true, false, Bool-cases, inl, inr,
  ◌||◌, arith, nat_eq, split, if◌then◌else◌, Result, ok, err, ◌>>=◌, push_front,
}
use overlay_mcp.Core.Models.{HttpReference}
use overlay_mcp.Http.Reference.{
  HttpMultiReference, header, query, header_regex, query_regex, regex_or, to_string, visit_str,
  from_parts, pick, single, deserialize,
}

-- The text has a character with the code `sep`.
abbrev pub has : ℕ → String → Bool
has sep [] = false
has sep (c ∷ s) = nat_eq (code c) sep || has sep s

pub split-whole : (sep : ℕ) (s : String) → has sep s ≡ false → split sep s ≡ s ∷ []
unfolding split
split-whole sep [] h = refl
split-whole sep (c ∷ s) h = elim (Bool-cases (nat_eq (code c) sep)) [
  | inl e ↦ absurd (ground (arith, e))
  | inr e ↦ rw e (ap (push_front c) (split-whole sep s (subst (λ b. (b || has sep s) ≡ false) e h)))
]

-- The first part of a split has no separator.
pub split-first :
    (sep : ℕ) (s : String)
    → (first : String) × (others : List String) × (split sep s ≡ first ∷ others)
      × (has sep first ≡ false)
unfolding split
split-first sep [] = ("", [], refl, refl)
split-first sep (c ∷ s) = elim (Bool-cases (nat_eq (code c) sep)) [
  | inl e ↦ ("", split sep s, rw e refl, refl)
  | inr e ↦
      let (first, others, p, n) = split-first sep s in
      (c ∷ first, others, rw e (ap (push_front c) p), rw e n)
]

-- The text before a first separator is the first part.
split-before :
    (sep : ℕ) (p : String) (c : Char) (n : String)
    → has sep p ≡ false
    → nat_eq (code c) sep ≡ true
    → split sep (p <> (c ∷ n)) ≡ p ∷ split sep n
unfolding split
split-before sep [] c n h e = rw (nil-append (c ∷ n)) (rw e refl)
split-before sep (d ∷ p) c n h e = elim (Bool-cases (nat_eq (code d) sep)) [
  | inl f ↦ absurd (ground (arith, f))
  | inr f ↦
      rw (cons-append d p (c ∷ n), f)
        (ap (push_front d) (split-before sep p c n (subst (λ b. (b || has sep p) ≡ false) f h) e))
]

pub split-prefix : (p n : String) → has 58 p ≡ false → split 58 ((p <> ":") <> n) ≡ p ∷ split 58 n
split-prefix p n h =
    rw (append_assoc p ":" n, cons-append ":" "" n, nil-append n) (split-before 58 p ":" n h refl)

-- The name of a reference, as it is read from the parts of its text.
abbrev pub name_of : HttpReference → String
name_of (HttpReference.header s) = s
name_of (HttpReference.query s) = s

module _ {Regex : Type 0} (is_regex : String → Bool)
    (new_regex : String → Result Regex String) where
  abbrev finish : Result (HttpMultiReference Regex) String → Result HttpReference String
  finish r = do decoded ← r; single is_regex new_regex decoded

  header_regex-finish :
      (r : Result Regex String) (x : HttpReference)
      → ¬ (finish (regex_or is_regex new_regex header_regex r) ≡ ok x)
  header_regex-finish (ok regex) x h = cc
  header_regex-finish (err e) x h = cc

  query_regex-finish :
      (r : Result Regex String) (x : HttpReference)
      → ¬ (finish (regex_or is_regex new_regex query_regex r) ≡ ok x)
  query_regex-finish (ok regex) x h = cc
  query_regex-finish (err e) x h = cc

  parts-first :
      (prefix n first : String) (others : List String)
      → has 58 prefix ≡ false
      → split 58 n ≡ first ∷ others
      → deserialize is_regex new_regex ((prefix <> ":") <> n)
        ≡ finish (pick is_regex new_regex prefix first)
  unfolding deserialize visit_str
  parts-first prefix n first others h p =
      ap (λ parts. finish (from_parts is_regex new_regex parts))
        (split-prefix prefix n h ∙ ap (λ ps. prefix ∷ ps) p)

  abbrev IsReadable : String → Type 0
  IsReadable n = (has 58 n ≡ false) × (is_regex n ≡ false)

  header_chosen :
      (b : Bool) (r : Result Regex String) (first n : String)
      → finish (if b then regex_or is_regex new_regex header_regex r else ok (header first))
        ≡ ok (HttpReference.header n)
      → (first ≡ n) × (b ≡ false)
  header_chosen true r first n h = absurd (header_regex-finish r (HttpReference.header n) h)
  header_chosen false r first n h = (cc, refl)

  query_chosen :
      (b : Bool) (r : Result Regex String) (first n : String)
      → finish (if b then regex_or is_regex new_regex query_regex r else ok (query first))
        ≡ ok (HttpReference.query n)
      → (first ≡ n) × (b ≡ false)
  query_chosen true r first n h = absurd (query_regex-finish r (HttpReference.query n) h)
  query_chosen false r first n h = (cc, refl)

  readable :
      (n first : String) (others : List String)
      → split 58 n ≡ first ∷ others
      → has 58 first ≡ false
      → (first ≡ n) × (is_regex first ≡ false)
      → IsReadable n
  readable n first others p h (e, r) =
      (subst (λ s. has 58 s ≡ false) e h, subst (λ s. is_regex s ≡ false) e r)

  -- A reference is read back from its text as itself exactly where its name has no colon and is not taken
  -- for a regex.
  pub deserialize-to_string :
      (r : HttpReference)
      → (deserialize is_regex new_regex (to_string r) ≡ ok r)
        ↔ ((has 58 (name_of r) ≡ false) × (is_regex (name_of r) ≡ false))
  unfolding to_string
  deserialize-to_string (HttpReference.header n) =
      let (first, others, p, h) = split-first 58 n in
      (
        λ e. readable n first others p h (
            header_chosen (is_regex first) (new_regex first) first n
              (sym (parts-first "header" n first others refl p) ∙ e)),
        λ (c, x). parts-first "header" n n [] refl (split-whole 58 n c) ∙ rw x refl,
      )
  deserialize-to_string (HttpReference.query n) =
      let (first, others, p, h) = split-first 58 n in
      (
        λ e. readable n first others p h (
            query_chosen (is_regex first) (new_regex first) first n
              (sym (parts-first "query" n first others refl p) ∙ e)),
        λ (c, x). parts-first "query" n n [] refl (split-whole 58 n c) ∙ rw x refl,
      )
