-- ===== src/Auth/Authn/Bearer.antt =====
-- What a successful answer of `authenticate` says about the request.
use mathlib.Core.Path.{subst₂}
use overlay_mcp.Base.{
  String, ◌==◌, eq_iff, ◌≡◌, refl, ◌↔◌, Option, none, some, List, ◌∷◌, ◌++◌, All, All-map, First,
  find_map-First, First-find_map, find_map-none, none-find_map, arith, subst, split_whitespace,
  trim, to_lowercase, ok, ok_or, >>=-eq-ok, ok_or-eq-ok, if-eq-ok,
}
use overlay_mcp.Core.Models.{
  HttpReference, Header, TokenData, Authentication, api_key, jwt, no_auth,
}
use overlay_mcp.Http.Request.{Parts, HeaderValue, resolve}
use overlay_mcp.Auth.Authn.{
  Libraries, InnerAuthn, next, rest, api_key_at, find_api_key, try_keys, pick_jwtkey_by_jwtheader,
  prepare_validator, check_token, check_authorization, authenticate,
}

module _ (l : Libraries) where
  open l use {DecodingKey, decode_header, decode, parse_query}

  -- No configured reference finds an API key.
  abbrev pub NoApiKey : InnerAuthn DecodingKey → Parts → Type 0
  NoApiKey self target = All (λ r. resolve parse_query r target ≡ none) self.apikey_from

  -- The header's text is `bearer`, in any case, and the token.
  abbrev pub IsBearer : HeaderValue → String → Type 0
  IsBearer authorization token =
      (data' : String) × (authorization.to_str ≡ some data')
      × (to_lowercase (trim (next (split_whitespace data'))) ≡ "bearer")
      × (token ≡ trim (next (rest (split_whitespace data'))))

  -- The first of the keys for the token's header that decodes the token.
  abbrev pub Decodes : InnerAuthn DecodingKey → String → TokenData → Type 0
  Decodes self token t =
      (header : Header) × (decode_header token ≡ some header)
      × First (λ key. decode token key (prepare_validator l self header))
          (pick_jwtkey_by_jwtheader l self header) t

  abbrev pub Verified : InnerAuthn DecodingKey → Parts → TokenData → Type 0
  Verified self target t =
      NoApiKey self target
      × ((v : HeaderValue) × (token : String) × (target.headers "authorization" ≡ some v)
          × IsBearer v token
          × Decodes self token t)

  check_token-Decodes :
      (self : InnerAuthn DecodingKey) (token : String) (a : Authentication)
      → check_token l self token ≡ ok a
      → (t : TokenData) × (a ≡ jwt t) × Decodes self token t
  unfolding check_token try_keys
  check_token-Decodes self token a h =
      let (header, p, h') = >>=-eq-ok (ok_or (decode_header token) _) _ {b = a} h in
      let (t, q, h'') =
        >>=-eq-ok (ok_or (try_keys l token _ _) _) (λ found. ok (jwt found)) {b = a} h' in
      (t, cc, (header, ok_or-eq-ok _ _ p, find_map-First _ _ t (ok_or-eq-ok _ _ q)))

  Decodes-check_token :
      (self : InnerAuthn DecodingKey) (token : String) (t : TokenData)
      → Decodes self token t
      → check_token l self token ≡ ok (jwt t)
  unfolding check_token try_keys
  Decodes-check_token self token t (header, p, q) = rw p (rw (First-find_map _ _ t q))

  check_authorization-Decodes :
      (self : InnerAuthn DecodingKey) (v : HeaderValue) (a : Authentication)
      → check_authorization l self v ≡ ok a
      → (t : TokenData) × (token : String) × (a ≡ jwt t) × IsBearer v token × Decodes self token t
  unfolding check_authorization
  check_authorization-Decodes self v a h =
      let (text, p, h') = >>=-eq-ok (ok_or v.to_str _) _ {b = a} h in
      let (e, c) =
        if-eq-ok (to_lowercase (trim (next (split_whitespace text))) == "bearer") _ _ {a = a} h' in
      let (t, q, d) = check_token-Decodes self _ a c in
      (
        t,
        trim (next (rest (split_whitespace text))),
        q,
        (text, ok_or-eq-ok _ _ p, (eq_iff _ _).0 e, refl),
        d,
      )

  Decodes-check_authorization :
      (self : InnerAuthn DecodingKey) (v : HeaderValue) (token : String) (t : TokenData)
      → IsBearer v token
      → Decodes self token t
      → check_authorization l self v ≡ ok (jwt t)
  unfolding check_authorization
  Decodes-check_authorization self v token t (text, p, b, e) d =
      rw p (rw b (Decodes-check_token self _ t (rw e at d)))

  -- `r` is the first configured reference that finds an API key, and `k` is that key.
  abbrev pub FirstApiKey : InnerAuthn DecodingKey → Parts → String → HttpReference → Type 0
  FirstApiKey self target k r =
      (before : List HttpReference) × (after : List HttpReference) × (self.apikey_from
        ≡ before ++ r ∷ after)
      × All (λ r. resolve parse_query r target ≡ none) before
      × (resolve parse_query r target ≡ some k)

  api_key_at-some :
      (target : Parts) (r : HttpReference) (a : Authentication)
      → api_key_at l target r ≡ some a
      → (k : String) × (resolve parse_query r target ≡ some k) × (a ≡ api_key k r)
  api_key_at-some target r a h = go (resolve parse_query r target) refl
    where
      go :
          (o : Option String)
          → resolve parse_query r target ≡ o
          → (k : String) × (resolve parse_query r target ≡ some k) × (a ≡ api_key k r)
      go none e = absurd (ground arith)
      go (some k) e = (k, e, ground arith)

  api_key_at-none :
      (target : Parts) (r : HttpReference)
      → (api_key_at l target r ≡ none) ↔ (resolve parse_query r target ≡ none)
  api_key_at-none target r = (λ h. ground arith, λ h. ground arith)

  find_api_key-FirstApiKey :
      (self : InnerAuthn DecodingKey) (target : Parts) (a : Authentication)
      → find_api_key l self.apikey_from target ≡ some a
      → (k : String) × (r : HttpReference) × (a ≡ api_key k r) × FirstApiKey self target k r
  unfolding find_api_key
  find_api_key-FirstApiKey self target a h =
      let (before, r, after, p, q, e) = find_map-First (api_key_at l target) self.apikey_from a h in
      let (k, found, same) = api_key_at-some target r a e in
      (k, r, same, (before, after, p, All-map (λ r. (api_key_at-none target r).0) before q, found))

  FirstApiKey-find_api_key :
      (self : InnerAuthn DecodingKey) (target : Parts) (k : String) (r : HttpReference)
      → FirstApiKey self target k r
      → find_api_key l self.apikey_from target ≡ some (api_key k r)
  unfolding find_api_key
  FirstApiKey-find_api_key self target k r (before, after, p, q, e) =
      First-find_map (api_key_at l target) self.apikey_from (api_key k r)
        (before, r, after, p, All-map (λ r. (api_key_at-none target r).1) before q, ground arith)

  find_api_key-NoApiKey :
      (self : InnerAuthn DecodingKey) (target : Parts)
      → (find_api_key l self.apikey_from target ≡ none) ↔ NoApiKey self target
  unfolding find_api_key
  find_api_key-NoApiKey self target = (
    λ h. All-map (λ r. (api_key_at-none target r).0) _ (find_map-none (api_key_at l target) _ h),
    λ h. none-find_map (api_key_at l target) _ (All-map (λ r. (api_key_at-none target r).1) _ h),
  )

  -- Where a successful answer comes from.
  data Source (self : InnerAuthn DecodingKey) (target : Parts) (a : Authentication) : Type 0 where
    from_key :
        (k : String) (r : HttpReference)
        → a ≡ api_key k r
        → FirstApiKey self target k r
        → Source self target a
    from_token : (t : TokenData) → a ≡ jwt t → Verified self target t → Source self target a
    from_nothing :
        a ≡ no_auth
        → NoApiKey self target
        → target.headers "authorization" ≡ none
        → Source self target a

  authenticate-Source :
      (self : InnerAuthn DecodingKey) (target : Parts) (a : Authentication)
      → authenticate l self target ≡ ok a
      → Source self target a
  unfolding authenticate
  authenticate-Source self target a h = go (find_api_key l self.apikey_from target) refl
    where
      unkeyed :
          (o : Option HeaderValue)
          → target.headers "authorization" ≡ o
          → find_api_key l self.apikey_from target ≡ none
          → Source self target a
      unkeyed none e n =
          let same : ok no_auth ≡ ok a = rw (n, authenticate, e) at h in
          from_nothing (cc) ((find_api_key-NoApiKey self target).0 n) e
      unkeyed (some v) e n =
          let (t, token, same, b, d) =
            check_authorization-Decodes self v a (rw (n, authenticate, e) at h) in
          from_token t same ((find_api_key-NoApiKey self target).0 n, (v, token, e, b, d))

      go :
          (o : Option Authentication)
          → find_api_key l self.apikey_from target ≡ o
          → Source self target a
      go (some b) e =
          let (k, r, same, found) = find_api_key-FirstApiKey self target b e in
          let given : ok b ≡ ok a = rw (e, authenticate) at h in from_key k r (cc) found
      go none e = unkeyed (target.headers "authorization") refl e

  Source-Verified :
      (self : InnerAuthn DecodingKey) (target : Parts) (t : TokenData)
      → Source self target (jwt t)
      → Verified self target t
  Source-Verified self target t (from_key k r same _) = absurd (cc)
  Source-Verified self target t (from_token t' same v) = subst (Verified self target) (cc) v
  Source-Verified self target t (from_nothing same _ _) = absurd (cc)

  Source-FirstApiKey :
      (self : InnerAuthn DecodingKey) (target : Parts) (k : String) (r : HttpReference)
      → Source self target (api_key k r)
      → FirstApiKey self target k r
  Source-FirstApiKey self target k r (from_key k' r' same f) =
      let e : k' ≡ k = cc in let d : r' ≡ r = cc in subst₂ (FirstApiKey self target) e d f
  Source-FirstApiKey self target k r (from_token t' same v) = absurd (cc)
  Source-FirstApiKey self target k r (from_nothing same _ _) = absurd (cc)

  Source-nothing :
      (self : InnerAuthn DecodingKey) (target : Parts)
      → Source self target no_auth
      → NoApiKey self target × (target.headers "authorization" ≡ none)
  Source-nothing self target (from_key k' r' same f) = absurd (cc)
  Source-nothing self target (from_token t' same v) = absurd (cc)
  Source-nothing self target (from_nothing same n e) = (n, e)

  -- A request is taken for the bearer of the token `t` exactly when no configured reference finds an
  -- API key, its `authorization` header is `bearer` and a token, and `t` is what the first key for the
  -- token's header that decodes the token, under the prepared validation, decodes it to.
  pub authenticate-jwt :
      (self : InnerAuthn DecodingKey) (target : Parts) (t : TokenData)
      → (authenticate l self target ≡ ok (jwt t)) ↔ Verified self target t
  unfolding authenticate
  authenticate-jwt self target t = (
    λ h. Source-Verified self target t (authenticate-Source self target (jwt t) h),
    λ (n, (v, token, e, b, d)).
        rw ((find_api_key-NoApiKey self target).1 n, authenticate)
          (rw e (Decodes-check_authorization self v token t b d)),
  )

  -- A request is taken for the holder of an API key exactly when a configured reference finds one, the
  -- first that does; its `authorization` header does not count then.
  pub authenticate-api_key :
      (self : InnerAuthn DecodingKey) (target : Parts) (k : String) (r : HttpReference)
      → (authenticate l self target ≡ ok (api_key k r)) ↔ FirstApiKey self target k r
  unfolding authenticate
  authenticate-api_key self target k r = (
    λ h. Source-FirstApiKey self target k r (authenticate-Source self target (api_key k r) h),
    λ f. rw (FirstApiKey-find_api_key self target k r f, authenticate),
  )

  -- A request is anonymous exactly when no configured reference finds an API key and it has no
  -- `authorization` header: bad credentials are an error, never no credentials.
  pub authenticate-no_auth :
      (self : InnerAuthn DecodingKey) (target : Parts)
      → (authenticate l self target ≡ ok no_auth)
        ↔ (NoApiKey self target × (target.headers "authorization" ≡ none))
  unfolding authenticate
  authenticate-no_auth self target = (
    λ h. Source-nothing self target (authenticate-Source self target no_auth h),
    λ (n, e). rw ((find_api_key-NoApiKey self target).1 n, authenticate) (rw e),
  )
