-- ===== src/Http/Builder/Entries.antt =====
-- The entries of a query by key, and what is added to them.
use overlay_mcp.Base.{
  String, ◌==◌, eq_iff, ◌≡◌, refl, sym, ap, ◌∙◌, arith, Bool, Bool-cases, true, false, inl, inr,
  Option, none, some, List, [], ◌∷◌, ◌++◌, lookup, insert, lookup-insert, if◌then◌else◌,
}
use mathlib.Core.List.{append_assoc, append-nil}
use overlay_mcp.Http.Builder.{unwrap_or_empty, extend_entry, collect}

abbrev pub values_at : String → List (String × List String) → List String
values_at key entries = unwrap_or_empty (lookup key entries)

-- The values of a key in a query, in order.
abbrev pub values_of : String → List (String × String) → List String
values_of key [] = []
values_of key ((k, v) ∷ pairs) =
    let rest = values_of key pairs in if k == key then v ∷ rest else rest

pub extend_entry-values :
    (k key : String) (values : List String) (entries : List (String × List String))
    → values_at key (extend_entry k values entries)
      ≡ values_at key entries ++ (if k == key then values else [])
unfolding extend_entry
extend_entry-values k key values entries = elim (Bool-cases (k == key)) [
  | inl e ↦
      rw (lookup-insert k key (values_at k entries ++ values) entries, e)
        (ap (λ s. values_at s entries ++ values) ((eq_iff k key).0 e))
  | inr e ↦
      rw (lookup-insert k key (values_at k entries ++ values) entries, e)
        (sym (append-nil (values_at key entries)))
]

pub collect-values :
    (key : String) (pairs : List (String × String)) (entries : List (String × List String))
    → values_at key (collect pairs entries) ≡ values_at key entries ++ values_of key pairs
unfolding collect
collect-values key [] entries = sym (append-nil (values_at key entries))
collect-values key ((k, v) ∷ pairs) entries =
    collect-values key pairs (extend_entry k (v ∷ []) entries)
    ∙ ap (λ vs. vs ++ values_of key pairs) (extend_entry-values k key (v ∷ []) entries)
    ∙ append_assoc (values_at key entries) (if k == key then v ∷ [] else []) (values_of key pairs)
    ∙ ap (λ vs. values_at key entries ++ vs) (go (k == key))
  where
    go :
        (b : Bool)
        → (if b then v ∷ [] else []) ++ values_of key pairs
          ≡ (if b then v ∷ values_of key pairs else values_of key pairs)
    go true = refl
    go false = refl

-- No key has two entries.
abbrev pub Unique : List (String × List String) → Type 0
Unique [] = Unit
Unique ((k, v) ∷ entries) = (lookup k entries ≡ none) × Unique entries

insert-Unique :
    (k : String) (v : List String) (entries : List (String × List String))
    → Unique entries
    → Unique (insert k v entries)
unfolding insert lookup
insert-Unique k v [] h = (refl, tt)
insert-Unique k v ((j, x) ∷ entries) (p, h) = go (j == k) refl (insert-Unique k v entries h)
  where
    go :
        (b : Bool)
        → j == k ≡ b
        → Unique (insert k v entries)
        → Unique (if b then (j, v) ∷ entries else (j, x) ∷ insert k v entries)
    go true e r = (p, h)
    go false e r = (ground (arith, lookup-insert k j v entries, eq_iff k j, eq_iff j k, p), r)

pub collect-Unique :
    (pairs : List (String × String)) (entries : List (String × List String))
    → Unique entries
    → Unique (collect pairs entries)
unfolding collect extend_entry
collect-Unique [] entries h = h
collect-Unique ((k, v) ∷ pairs) entries h =
    collect-Unique pairs (extend_entry k (v ∷ []) entries)
      (insert-Unique k (values_at k entries ++ v ∷ []) entries h)

pub first_or_rest :
    (a b : Bool) (v : List String) (o : Option (List String))
    → (a ≡ true → o ≡ none)
    → (if a then (if b then v else []) else []) ++ (if b then unwrap_or_empty o else [])
      ≡ (if b then unwrap_or_empty (if a then some v else o) else [])
first_or_rest true true v o h = rw (h refl) (append-nil v)
first_or_rest true false v o h = refl
first_or_rest false true v o h = refl
first_or_rest false false v o h = refl

pub key_values :
    (s key : String) (entries : List (String × List String)) (b : Bool)
    → s == key ≡ b
    → (if b then values_at s entries else []) ≡ (if b then values_at key entries else [])
key_values s key entries true e = ap (λ k. values_at k entries) ((eq_iff s key).0 e)
key_values s key entries false e = refl
