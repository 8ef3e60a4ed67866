-- ===== src/Auth/Authn/Keys.antt =====
-- Which keys and which validation a token is checked with.
use overlay_mcp.Base.{
  String, ◌==◌, ◌≡◌, refl, ◌↔◌, ◌∙◌, sym, ap, subst, true, false, Option, none, some, List, [], ◌∷◌,
  arith, lookup, lookup-insert, find_map, First, First-find_map, trim, split_whitespace,
  if◌then◌else◌, ok,
}
use overlay_mcp.Core.Errors.{Url}
use overlay_mcp.Core.Models.{HttpReference, Header, TokenData, jwt}
use overlay_mcp.Core.Config.{JwtValidatorConfig, IdpClientConfig}
use overlay_mcp.Http.Request.{Parts, HeaderValue}
use overlay_mcp.Auth.Authn.{
  Libraries, InnerAuthn, load_keys, new, pick_jwtkey_by_jwtheader, prepare_validator, authenticate,
  place_key, next, rest,
}
use overlay_mcp.Auth.Authn.Bearer.{NoApiKey, IsBearer, Verified, authenticate-jwt}

module _ (l : Libraries) where
  open l use {Jwk, DecodingKey, key_id, from_jwk, decode_header, decode, new_validation}

  -- Where the library checks signatures by default, a token's signature goes unchecked exactly when no
  -- validator is configured.
  pub prepare_validator-signature :
      (self : InnerAuthn DecodingKey) (header : Header)
      → (new_validation header.alg).validate_signature ≡ true
      → ((prepare_validator l self header).validate_signature ≡ false) ↔ (self.jwt_validator ≡ none)
  unfolding prepare_validator
  prepare_validator-signature self header on = (λ h. ground arith, λ h. ground arith)

  First-singleton :
      (f : DecodingKey → Option TokenData) (key : DecodingKey) (t : TokenData)
      → First f (key ∷ []) t ↔ (f key ≡ some t)
  unfolding find_map
  First-singleton f key t = (
    λ h. let e : find_map f (key ∷ []) ≡ some t = First-find_map f _ t h in go (f key) refl e,
    λ h. ([], key, [], refl, tt, h),
  )
    where
      go : (o : Option TokenData) → f key ≡ o → find_map f (key ∷ []) ≡ some t → f key ≡ some t
      go none e h = absurd (let bad : none ≡ some t = rw (e, find_map) at h in cc)
      go (some u) e h = let same : some u ≡ some t = rw (e, find_map) at h in e ∙ same

  pick-known_kid :
      (self : InnerAuthn DecodingKey) (header : Header) (config : JwtValidatorConfig) (kid : String)
      (key : DecodingKey)
      → self.jwt_validator ≡ some config
      → header.kid ≡ some kid
      → lookup kid self.kid_map ≡ some key
      → pick_jwtkey_by_jwtheader l self header ≡ key ∷ []
  unfolding pick_jwtkey_by_jwtheader
  pick-known_kid self header config kid key c n k = ground arith

  pick-open :
      (self : InnerAuthn DecodingKey) (header : Header)
      → self.jwt_validator ≡ none
      → pick_jwtkey_by_jwtheader l self header ≡ self.empty_key ∷ []
  unfolding pick_jwtkey_by_jwtheader
  pick-open self header c = ground arith

  -- The one key that is tried decides.
  Verified-one_key :
      (self : InnerAuthn DecodingKey) (target : Parts) (v : HeaderValue) (token : String)
      (header : Header) (key : DecodingKey) (t : TokenData)
      → NoApiKey l self target
      → target.headers "authorization" ≡ some v
      → IsBearer l v token
      → decode_header token ≡ some header
      → pick_jwtkey_by_jwtheader l self header ≡ key ∷ []
      → Verified l self target t ↔ (decode token key (prepare_validator l self header) ≡ some t)
  Verified-one_key self target v token header key t free at (text, p, b, e) d one = (
    λ (_, (v', token', at', (text', p', b', e'), (header', d', first))).
        let v_eq : v' ≡ v = cc in
        let text_eq : text' ≡ text = cc in
        let token_eq : token' ≡ token =
          e' ∙ ap (λ x. trim (next (rest (split_whitespace x)))) text_eq ∙ sym e in
        let header_eq : header' ≡ header = cc in
        let keys : pick_jwtkey_by_jwtheader l self header' ≡ key ∷ [] =
          ap (pick_jwtkey_by_jwtheader l self) header_eq ∙ one in
        let tried = λ (k : DecodingKey). decode token' k (prepare_validator l self header') in
        let found : tried key ≡ some t =
          (First-singleton tried key t).0 (subst (λ ks. First tried ks t) keys first) in
        cc,
    λ h.
        let tried = λ (k : DecodingKey). decode token k (prepare_validator l self header) in
        let first = subst (λ ks. First tried ks t) (sym one) ((First-singleton tried key t).1 h) in
        (free, (v, token, at, (text, p, b, e), (header, d, first))),
  )

  -- With a validator configured, a token whose header names a known key is accepted exactly when that
  -- key decodes it: no other key is tried.
  pub authenticate-known_kid :
      (self : InnerAuthn DecodingKey) (target : Parts) (v : HeaderValue) (token : String)
      (header : Header) (config : JwtValidatorConfig) (kid : String) (key : DecodingKey)
      (t : TokenData)
      → NoApiKey l self target
      → target.headers "authorization" ≡ some v
      → IsBearer l v token
      → decode_header token ≡ some header
      → self.jwt_validator ≡ some config
      → header.kid ≡ some kid
      → lookup kid self.kid_map ≡ some key
      → (authenticate l self target ≡ ok (jwt t))
        ↔ (decode token key (prepare_validator l self header) ≡ some t)
  authenticate-known_kid self target v token header config kid key t free at b d c n k =
      let (there, back) = authenticate-jwt l self target t in
      let (one, two) =
        Verified-one_key self target v token header key t free at b d
          (pick-known_kid self header config kid key c n k) in
      (λ h. one (there h), λ h. back (two h))

  -- The last key of the set that has this id; `found` is the one so far.
  abbrev named :
      String → Option String → Option DecodingKey → Option DecodingKey → Option DecodingKey
  named kid none key found = found
  named kid (some k) key found = if k == kid then key else found

  abbrev pub last_key : String → List Jwk → Option DecodingKey → Option DecodingKey
  last_key kid [] found = found
  last_key kid (jwk ∷ jwks) found = last_key kid jwks (named kid (key_id jwk) (from_jwk jwk) found)

  place_key-named :
      (kid : String) (id : Option String) (key : DecodingKey)
      (kid_map : List (String × DecodingKey)) (no_kid_keys : List DecodingKey)
      → lookup kid (place_key l id key (kid_map, no_kid_keys)).0
        ≡ named kid id (some key) (lookup kid kid_map)
  place_key-named kid none key kid_map no_kid_keys = refl
  place_key-named kid (some k) key kid_map no_kid_keys = lookup-insert k kid key kid_map

  load_keys-last_key :
      (kid : String) (jwks : List Jwk)
      (keys loaded : List (String × DecodingKey) × List DecodingKey)
      → load_keys l jwks keys ≡ some loaded
      → lookup kid loaded.0 ≡ last_key kid jwks (lookup kid keys.0)
  unfolding load_keys
  load_keys-last_key kid [] keys loaded h = ground arith
  load_keys-last_key kid (jwk ∷ jwks) (kid_map, no_kid_keys) loaded h =
      go (from_jwk jwk) refl (λ key.
        load_keys-last_key kid jwks (place_key l (key_id jwk) key (kid_map, no_kid_keys)) loaded)
    where
      go :
          (o : Option DecodingKey)
          → from_jwk jwk ≡ o
          → ((key : DecodingKey)
              → load_keys l jwks (place_key l (key_id jwk) key (kid_map, no_kid_keys)) ≡ some loaded
              → lookup kid loaded.0
                ≡ last_key kid jwks
                    (lookup kid (place_key l (key_id jwk) key (kid_map, no_kid_keys)).0))
          → lookup kid loaded.0 ≡ last_key kid (jwk ∷ jwks) (lookup kid kid_map)
      go none e ih = absurd (let bad : none ≡ some loaded = rw (e, load_keys) at h in cc)
      go (some key) e ih = rw e (
          ih key (rw (e, load_keys) at h)
          ∙ ap (last_key kid jwks) (place_key-named kid (key_id jwk) key kid_map no_kid_keys))

  -- The key that is kept for an id is the last key of the set with that id.
  pub new-last_key :
      (key_from : List HttpReference) (issuer : Url) (jwks : List Jwk)
      (validator : JwtValidatorConfig) (client : IdpClientConfig) (self : InnerAuthn DecodingKey)
      (kid : String)
      → new l key_from issuer (some (jwks, validator)) client ≡ some self
      → lookup kid self.kid_map ≡ last_key kid jwks none
  unfolding new lookup
  new-last_key key_from issuer jwks validator client self kid h =
      go (load_keys l jwks ([], [])) refl
    where
      kept : Option (InnerAuthn DecodingKey) → Option DecodingKey
      kept o = elim o [ none ↦ none | some s ↦ lookup kid s.kid_map ]

      go :
          (o : Option (List (String × DecodingKey) × List DecodingKey))
          → load_keys l jwks ([], []) ≡ o
          → lookup kid self.kid_map ≡ last_key kid jwks none
      go none e = absurd (let bad : none ≡ some self = rw (e, new) at h in cc)
      go (some (kid_map, no_kid_keys)) e =
          sym (ap kept (rw (e, new) at h))
          ∙ load_keys-last_key kid jwks ([], []) (kid_map, no_kid_keys) e
