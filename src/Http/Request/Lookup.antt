-- ===== src/Http/Request/Lookup.antt =====
-- The first value of a query parameter.
use overlay_mcp.Base.{
  String, ◌==◌, eq_iff, ◌≡◌, ◌≢◌, Bool-cases, inl, inr, some, List, [], ◌∷◌, ◌++◌, All, arith,
}
use overlay_mcp.Http.Request.{find_value}

-- `v` is the value of the first pair whose key is `s`.
abbrev pub FirstValue : String → List (String × String) → String → Type 0
FirstValue s pairs v =
    (before : List (String × String)) × (after : List (String × String)) × (pairs
      ≡ before ++ (s, v) ∷ after)
    × All (λ p. p.0 ≢ s) before

pub find_value-FirstValue :
    (s v : String) (pairs : List (String × String))
    → find_value s pairs ≡ some v
    → FirstValue s pairs v
unfolding find_value
find_value-FirstValue s v [] h = absurd (cc)
find_value-FirstValue s v ((k, w) ∷ pairs) h = elim (Bool-cases (k == s)) [
  | inl e ↦ ([], pairs, ground (arith, eq_iff k s), tt)
  | inr e ↦
      let (before, after, p, q) = find_value-FirstValue s v pairs (ground arith) in
      ((k, w) ∷ before, after, rw p, (λ same. ground (arith, eq_iff k s), q))
]

pub FirstValue-find_value :
    (s v : String) (before after : List (String × String))
    → All (λ p. p.0 ≢ s) before
    → find_value s (before ++ (s, v) ∷ after) ≡ some v
unfolding find_value
FirstValue-find_value s v [] after q = ground (arith, eq_iff s s)
FirstValue-find_value s v ((k, w) ∷ before) after (n, q) =
    ground (arith, eq_iff k s, FirstValue-find_value s v before after q)
