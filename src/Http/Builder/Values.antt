-- ===== src/Http/Builder/Values.antt =====
-- Which values a built request has under a key of its query.
use overlay_mcp.Base.{
  String, ◌==◌, eq_iff, ◌≡◌, refl, sym, ap, ◌∙◌, subst, Bool, Bool-cases, true, false, inl, inr,
  Option, none, some, List, [], ◌∷◌, ◌++◌, lookup, All, if◌then◌else◌, ok,
}
use mathlib.Core.List.{append_assoc, append-nil}
use overlay_mcp.Http.Reference.{HttpMultiReference, header, query, header_regex, query_regex}
use overlay_mcp.Http.Builder.{
  Uri, HeaderMap, HttpBuilder, unwrap_or_empty, extend_entry, collect, new, append_found,
  append_matches, extend_found, extend_matches, apply_one, apply_all, apply, and_then,
}
use overlay_mcp.Http.Builder.Entries.{
  values_at, values_of, extend_entry-values, collect-values, Unique, collect-Unique, first_or_rest,
  key_values,
}

module _ {Regex : Type 0} (is_match : Regex → String → Bool) where
  -- What a reference takes for a key of the query of the request that is read.
  abbrev pub taken : (key : String) (found : List String) → HttpMultiReference Regex → List String
  taken key found (header _) = []
  taken key found (header_regex _) = []
  taken key found (query s) = if s == key then found else []
  taken key found (query_regex r) = if is_match r key then found else []

  abbrev pub taken_all :
      (key : String) (found : List String) → List (HttpMultiReference Regex) → List String
  taken_all key found [] = []
  taken_all key found (elem' ∷ elems) = taken key found elem' ++ taken_all key found elems

  if-nil : (b : Bool) → (if◌then◌else◌ {A = List String} b [] []) ≡ []
  if-nil true = refl
  if-nil false = refl

module _ {Headers Name Value Regex : Type 0} (map : HeaderMap Headers Name Value)
    (parse : String → List (String × String)) (is_match : Regex → String → Bool) where
  matched-values :
      (r : Regex) (k key : String) (v : List String) (entries : List (String × List String))
      (b : Bool)
      → is_match r k ≡ b
      → values_at key (if b then extend_entry k v entries else entries)
        ≡ values_at key entries ++ (if k == key then (if is_match r key then v else []) else [])
  matched-values r k key v entries b m = elim (Bool-cases (k == key)) [
    | inl e ↦ same b (sym (ap (is_match r) ((eq_iff k key).0 e)) ∙ m) e
    | inr e ↦ other b e
  ]
    where
      same :
          (b : Bool)
          → is_match r key ≡ b
          → k == key ≡ true
          → values_at key (if b then extend_entry k v entries else entries)
            ≡ values_at key entries ++ (if k == key then (if is_match r key then v else []) else [])
      same true n e = rw (n, extend_entry-values k key v entries, e) refl
      same false n e = rw (n, e) (sym (append-nil (values_at key entries)))

      other :
          (b : Bool)
          → k == key ≡ false
          → values_at key (if b then extend_entry k v entries else entries)
            ≡ values_at key entries ++ (if k == key then (if is_match r key then v else []) else [])
      other true e = rw (extend_entry-values k key v entries, e) refl
      other false e = rw (e) (sym (append-nil (values_at key entries)))

  extend_matches-values :
      (r : Regex) (key : String) (found entries : List (String × List String))
      → Unique found
      → values_at key (extend_matches map parse is_match r found entries)
        ≡ values_at key entries ++ (if is_match r key then values_at key found else [])
  unfolding extend_matches lookup
  extend_matches-values r key [] entries h =
      rw (if-nil is_match (is_match r key)) (sym (append-nil (values_at key entries)))
  extend_matches-values r key ((k, v) ∷ found) entries (p, h) =
      extend_matches-values r key found (if is_match r k then extend_entry k v entries else entries)
        h
      ∙ ap (λ vs. vs ++ (if is_match r key then values_at key found else []))
          (matched-values r k key v entries (is_match r k) refl)
      ∙ append_assoc (values_at key entries) _ _
      ∙ ap (λ vs. values_at key entries ++ vs)
          (first_or_rest (k == key) (is_match r key) v (lookup key found)
            (λ e. ap (λ s. lookup s found) (sym ((eq_iff k key).0 e)) ∙ p))

  -- What `append` is given has a name: `get` and `iter` know only headers with names.
  abbrev pub Named : Headers → Type 0
  Named h =
      ((s : String) (v : Value) → map.get h s ≡ some v → (n : Name) × (map.from_str s ≡ some n))
      × All (λ (entry : String × Value). (n : Name) × (map.from_str entry.0 ≡ some n)) (map.iter h)

  -- The builder after a reference: it has not panicked, reads the same request, and its query has what
  -- the reference takes, after what it had.
  abbrev Takes :
      HttpBuilder Headers → ((key : String) → List String) → Option (HttpBuilder Headers) → Type 0
  Takes self more o =
      (after : HttpBuilder Headers) × (o ≡ some after)
      × (after.src ≡ self.src)
      × (after.src_query ≡ self.src_query)
      × ((key : String) → values_at key after.query ≡ values_at key self.query ++ more key)

  nothing :
      (self after : HttpBuilder Headers)
      → after.src ≡ self.src
      → after.src_query ≡ self.src_query
      → after.query ≡ self.query
      → Takes self (λ key. []) (some after)
  nothing self after p q r =
      (after, refl, p, q, λ key. ap (values_at key) r ∙ sym (append-nil (values_at key self.query)))

  append_found-Takes :
      (self : HttpBuilder Headers) (s : String) (o : Option Value)
      → ((v : Value) → o ≡ some v → (n : Name) × (map.from_str s ≡ some n))
      → Takes self (λ key. []) (append_found map parse is_match s o self)
  append_found-Takes self s none h = nothing self self refl refl refl
  append_found-Takes self s (some v) h =
      let (n, e) = h v refl in
      rw e (nothing self (record self { headers = map.append self.headers n v }) refl refl refl)

  append_matches-Takes :
      (r : Regex) (headers : List (String × Value)) (self : HttpBuilder Headers)
      → All (λ (entry : String × Value). (n : Name) × (map.from_str entry.0 ≡ some n)) headers
      → Takes self (λ key. []) (append_matches map parse is_match r headers self)
  unfolding append_matches
  append_matches-Takes r [] self h = nothing self self refl refl refl
  append_matches-Takes r ((k, v) ∷ headers) self ((n, e), h) = rw e (
      go (is_match r k) (append_matches-Takes r headers self h)
        (append_matches-Takes r headers (record self { headers = map.append self.headers n v }) h))
    where
      go :
          (b : Bool)
          → Takes self (λ key. []) (append_matches map parse is_match r headers self)
          → Takes self
              (λ key. [])
              (append_matches map parse is_match r headers
                (record self { headers = map.append self.headers n v }))
          → Takes self
              (λ key. [])
              (and_then map parse is_match
                (if b
                  then some (record self { headers = map.append self.headers n v })
                  else some self)
                (append_matches map parse is_match r headers))
      go true p q = q
      go false p q = p

  extend_found-values :
      (s key : String) (o : Option (List String)) (entries : List (String × List String))
      → values_at key (extend_found map parse is_match s o entries)
        ≡ values_at key entries ++ (if s == key then unwrap_or_empty o else [])
  unfolding extend_found
  extend_found-values s key none entries =
      rw (if-nil is_match (s == key)) (sym (append-nil (values_at key entries)))
  extend_found-values s key (some values) entries = extend_entry-values s key values entries

  apply_one-Takes :
      (self : HttpBuilder Headers) (elem' : HttpMultiReference Regex)
      → Named self.src
      → Unique self.src_query
      → Takes self
          (λ key. taken is_match key (values_at key self.src_query) elem')
          (apply_one map parse is_match elem' self)
  unfolding apply_one
  apply_one-Takes self (header s) (n, h) u = append_found-Takes self s (map.get self.src s) (n s)
  apply_one-Takes self (header_regex r) (n, h) u = append_matches-Takes r (map.iter self.src) self h
  apply_one-Takes self (query s) (n, h) u = (
    record self { query = extend_found map parse is_match s (lookup s self.src_query) self.query },
    refl,
    refl,
    refl,
    λ key.
        extend_found-values s key (lookup s self.src_query) self.query
        ∙ ap (λ vs. values_at key self.query ++ vs)
            (key_values s key self.src_query (s == key) refl),
  )
  apply_one-Takes self (query_regex r) (n, h) u = (
    record self { query = extend_matches map parse is_match r self.src_query self.query },
    refl,
    refl,
    refl,
    λ key. extend_matches-values r key self.src_query self.query u,
  )

  then-Takes :
      (self : HttpBuilder Headers) (o : Option (HttpBuilder Headers))
      (more rest : (key : String) → List String)
      (next : HttpBuilder Headers → Option (HttpBuilder Headers))
      → Takes self more o
      → ((mid : HttpBuilder Headers)
          → mid.src ≡ self.src
          → mid.src_query ≡ self.src_query
          → Takes mid rest (next mid))
      → Takes self (λ key. more key ++ rest key) (and_then map parse is_match o next)
  then-Takes self o more rest next (mid, e, p, q, v) h =
      let (after, f, a, b, c) = h mid p q in
      (
        after,
        rw e f,
        a ∙ p,
        b ∙ q,
        λ key.
            c key
            ∙ ap (λ vs. vs ++ rest key) (v key)
            ∙ append_assoc (values_at key self.query) (more key) (rest key),
      )

  apply_all-Takes :
      (elems : List (HttpMultiReference Regex)) (self : HttpBuilder Headers)
      → Named self.src
      → Unique self.src_query
      → Takes self
          (λ key. taken_all is_match key (values_at key self.src_query) elems)
          (apply_all map parse is_match elems self)
  unfolding apply_all
  apply_all-Takes [] self n u = nothing self self refl refl refl
  apply_all-Takes (elem' ∷ elems) self n u =
      then-Takes self (apply_one map parse is_match elem' self) _ _
        (apply_all map parse is_match elems) (apply_one-Takes self elem' n u)
        (λ mid p q.
          subst
            (λ src_query.
              Takes mid (λ key. taken_all is_match key (values_at key src_query) elems)
                (apply_all map parse is_match elems mid))
            q (apply_all-Takes elems mid (subst Named (sym p) n) (subst Unique (sym q) u)))

  -- A request with a query is built for a URI that has a scheme, a host and a query, and applying references
  -- never panics, where the names of its headers are header names; then a key of the query has its values
  -- in the URI, and after them those that each reference in turn takes: all values of the key in the
  -- request, for a reference to it or with a regex that it matches.
  pub apply-values :
      (src_headers : Headers) (src dst : Uri) (scheme hostname src_text dst_text : String)
      (elems : List (HttpMultiReference Regex))
      → Named src_headers
      → dst.scheme ≡ some scheme
      → dst.authority ≡ some hostname
      → dst.query ≡ some dst_text
      → src.query ≡ some src_text
      → (self : HttpBuilder Headers) × (after : HttpBuilder Headers) × (new map parse is_match
            src_headers src dst
          ≡ ok self)
        × (apply map parse is_match elems self ≡ some (ok after))
        × ((key : String)
            → values_at key after.query
              ≡ values_of key (parse dst_text)
                ++ taken_all is_match key (values_of key (parse src_text)) elems)
  unfolding new apply lookup
  apply-values src_headers src dst scheme hostname src_text dst_text elems n a b c d =
      let self : HttpBuilder Headers = record {
        src = src_headers;
        src_query = collect (parse src_text) [];
        scheme = scheme;
        hostname = hostname;
        path = dst.path;
        query = collect (parse dst_text) [];
        headers = map.empty;
      } in
      let (after, e, _, _, v) =
        apply_all-Takes elems self n (collect-Unique (parse src_text) [] tt) in
      (
        self,
        after,
        simp (a, b, c, d) refl,
        rw e refl,
        λ key.
            v key
            ∙ ap (λ vs. vs ++ taken_all is_match key (values_at key self.src_query) elems)
                (collect-values key (parse dst_text) [])
            ∙ ap (λ vs. values_of key (parse dst_text) ++ taken_all is_match key vs elems)
                (collect-values key (parse src_text) []),
      )
