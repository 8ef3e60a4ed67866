-- ===== src/Http/Reference/Printed.antt =====
-- Which references to several headers or parameters are read back from their text.
use Prim.Native.Char.{code}
use Prim.Native.String.{[], ◌∷◌}
use mathlib.Core.List.{List, [], ◌∷◌}
use text.Mathlib.TextLemmas.{nil-append, cons-append}
use overlay_mcp.Base.{
  String, ◌<>◌, ◌≡◌, refl, sym, ap, ◌∙◌, subst, ◌↔◌, ℕ, suc, ◌+◌, Bool, true, false, ◌||◌, arith,
  nat_eq, split, if◌then◌else◌, Result, ok, err,
}
use overlay_mcp.Http.Reference.{
  HttpMultiReference, header, query, header_regex, query_regex, regex_or, display, visit_str,
  from_parts, pick,
}
use overlay_mcp.Http.Reference.Reading.{has, split-whole, split-first, split-prefix}

size : String → ℕ
size [] = 0
size (c ∷ s) = suc (size s)

size-append : (s t : String) → size (s <> t) ≡ size s + size t
unfolding size
size-append [] t = rw (nil-append t) (omega arith)
size-append (c ∷ s) t = rw (cons-append c s t) (omega (arith, size-append s t))

has-append : (sep : ℕ) (s t : String) → has sep (s <> t) ≡ (has sep s || has sep t)
has-append sep [] t = rw (nil-append t) refl
has-append sep (c ∷ s) t =
    rw (cons-append c s t) (rw (has-append sep s t) (go (nat_eq (code c) sep)))
  where
    go : (b : Bool) → (b || (has sep s || has sep t)) ≡ ((b || has sep s) || has sep t)
    go true = refl
    go false = refl

-- A text between slashes.
abbrev slashed : String → String
slashed t = "/" <> (t <> "/")

slashed-plain : (t : String) → has 58 t ≡ false → has 58 (slashed t) ≡ false
slashed-plain t h = rw (has-append 58 "/" (t <> "/"), has-append 58 t "/", h) refl

slashed-longer : (t : String) → ¬ (t ≡ slashed t)
unfolding size
slashed-longer t h =
    absurd (omega (arith, ap size h, size-append "/" (t <> "/"), size-append t "/"))

module _ {Regex : Type 0} (is_regex : String → Bool) (new_regex : String → Result Regex String)
    (as_str : Regex → String) where
  parts-first :
      (prefix n first : String) (others : List String)
      → has 58 prefix ≡ false
      → split 58 n ≡ first ∷ others
      → visit_str is_regex new_regex ((prefix <> ":") <> n) ≡ pick is_regex new_regex prefix first
  unfolding visit_str
  parts-first prefix n first others h p =
      ap (from_parts is_regex new_regex) (split-prefix prefix n h ∙ ap (λ ps. prefix ∷ ps) p)

  -- A text that is read as a regex of its own stands between no slashes of its own.
  not-slashed :
      (t first : String) (others : List String)
      → split 58 (slashed t) ≡ first ∷ others
      → has 58 first ≡ false
      → ¬ (t ≡ first)
  not-slashed t first others p h e =
      let whole =
        split-whole 58 (slashed t) (slashed-plain t (subst (λ s. has 58 s ≡ false) (sym e) h)) in
      let same : slashed t ≡ first = cc (whole, p) in slashed-longer t (e ∙ sym same)

  module _ (compiled : (v : String) (r : Regex) → new_regex v ≡ ok r → as_str r ≡ v) where
    regex_chosen :
        (of : Regex → HttpMultiReference Regex) (plain : String → HttpMultiReference Regex)
        (b : Bool) (x : Result Regex String) (r : Regex) (first : String)
        → ((s : String)
            → ¬ (Path (Result (HttpMultiReference Regex) String) (ok (plain s)) (ok (of r))))
        → ((q : Regex)
            → Path (Result (HttpMultiReference Regex) String) (ok (of q)) (ok (of r))
            → q ≡ r)
        → (if b then regex_or is_regex new_regex of x else ok (plain first)) ≡ ok (of r)
        → x ≡ ok r
    regex_chosen of plain true (ok q) r first n i h = ap ok (i q h)
    regex_chosen of plain true (err e) r first n i h = absurd (cc)
    regex_chosen of plain false x r first n i h = absurd (n first h)

    plain_chosen :
        (of : Regex → HttpMultiReference Regex) (plain : String → HttpMultiReference Regex)
        (b : Bool) (x : Result Regex String) (first n : String)
        → ((q : Regex)
            → ¬ (Path (Result (HttpMultiReference Regex) String) (ok (of q)) (ok (plain n))))
        → ((s : String)
            → Path (Result (HttpMultiReference Regex) String) (ok (plain s)) (ok (plain n))
            → s ≡ n)
        → (if b then regex_or is_regex new_regex of x else ok (plain first)) ≡ ok (plain n)
        → (first ≡ n) × (b ≡ false)
    plain_chosen of plain true (ok q) first n never i h = absurd (never q h)
    plain_chosen of plain true (err e) first n never i h = absurd (cc)
    plain_chosen of plain false x first n never i h = (i first h, refl)

    -- What is read back from its text as itself.
    abbrev pub IsPlain : HttpMultiReference Regex → Type 0
    IsPlain (header n) = (has 58 n ≡ false) × (is_regex n ≡ false)
    IsPlain (query n) = (has 58 n ≡ false) × (is_regex n ≡ false)
    IsPlain (header_regex _) = ⊥
    IsPlain (query_regex _) = ⊥

    readable :
        (n first : String) (others : List String)
        → has 58 first ≡ false
        → (first ≡ n) × (is_regex first ≡ false)
        → (has 58 n ≡ false) × (is_regex n ≡ false)
    readable n first others h (e, r) =
        (subst (λ s. has 58 s ≡ false) e h, subst (λ s. is_regex s ≡ false) e r)

    -- Where a regex prints what it was made of, a reference is read back from its text as itself exactly where
    -- it names a header or a parameter, with a name that has no colon and is not taken for a regex: a
    -- reference with a regex never is.
    pub display-IsPlain :
        (reference : HttpMultiReference Regex)
        → (visit_str is_regex new_regex (display as_str reference) ≡ ok reference)
          ↔ IsPlain reference
    unfolding display
    display-IsPlain (header n) =
        let (first, others, p, h) = split-first 58 n in
        (
          λ e. readable n first others h (
              plain_chosen header_regex header (is_regex first) (new_regex first) first n (λ q. cc)
                (λ s i. cc) (sym (parts-first "header" n first others refl p) ∙ e)),
          λ (c, x). parts-first "header" n n [] refl (split-whole 58 n c) ∙ rw x refl,
        )
    display-IsPlain (query n) =
        let (first, others, p, h) = split-first 58 n in
        (
          λ e. readable n first others h (
              plain_chosen query_regex query (is_regex first) (new_regex first) first n (λ q. cc)
                (λ s i. cc) (sym (parts-first "query" n first others refl p) ∙ e)),
          λ (c, x). parts-first "query" n n [] refl (split-whole 58 n c) ∙ rw x refl,
        )
    display-IsPlain (header_regex r) =
        let (first, others, p, h) = split-first 58 (slashed (as_str r)) in
        (
          λ e. not-slashed (as_str r) first others p h (
              compiled first r (
                regex_chosen header_regex header (is_regex first) (new_regex first) r first
                  (λ s. cc) (λ q i. cc)
                  (sym (parts-first "header" (slashed (as_str r)) first others refl p) ∙ e))),
          λ x. absurd x,
        )
    display-IsPlain (query_regex r) =
        let (first, others, p, h) = split-first 58 (slashed (as_str r)) in
        (
          λ e. not-slashed (as_str r) first others p h (
              compiled first r (
                regex_chosen query_regex query (is_regex first) (new_regex first) r first (λ s. cc)
                  (λ q i. cc)
                  (sym (parts-first "query" (slashed (as_str r)) first others refl p) ∙ e))),
          λ x. absurd x,
        )
