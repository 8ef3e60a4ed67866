-- ===== src/Auth/Fga/Context.antt =====
-- The tuples that authz_fga.rs asks about, against a description of them.
use overlay_mcp.Base.{
  String, ◌≡◌, refl, ◌↔◌, ap, ap₂, subst, sym, Option, some, List, [], ◌∷◌, ◌++◌, map, arith, ok,
  ok_or, >>=-eq-ok, ok_or-eq-ok,
}
use overlay_mcp.Core.Json.{Value, string, as_array}
use overlay_mcp.Core.Errors.{PointerBuf, JwtContextPointerType, string_array}
use overlay_mcp.Core.Models.{jwt, TokenData}
use overlay_mcp.Core.Config.{JwtContext}
use overlay_mcp.Openfga.{Tuple, CheckBody}
use overlay_mcp.Auth.Static.Rules.{HasValues, one, many}
use overlay_mcp.Auth.Fga.{
  OpenfgaAuthzConfig, field_as_str, strings, field_as_str_array, member, tuple_of, field_values,
  field_tuples, context_tuples, check_body, build_tuple_user,
}

field_as_str-string : (v : Value) (s : String) → field_as_str v ≡ ok s → v ≡ string s
unfolding field_as_str
field_as_str-string (string t) s h = ground arith
field_as_str-string v s h = absurd (cc)

strings-map : (vs : List Value) (vals : List String) → strings vs ≡ ok vals → vs ≡ map string vals
strings-map [] vals h = ground arith
strings-map (v ∷ vs) vals h =
    let (s, p, h') = >>=-eq-ok (field_as_str v) _ {b = vals} h in
    let (rest, q, e) = >>=-eq-ok (strings vs) (λ rest. ok (s ∷ rest)) {b = vals} h' in
    let same : s ∷ rest ≡ vals = cc in
    subst (λ xs. v ∷ vs ≡ map string xs) same
      (ap₂ (λ (x : Value) xs. x ∷ xs) (field_as_str-string v s p) (strings-map vs rest q))

map-strings : (vals : List String) → strings (map string vals) ≡ ok vals
unfolding field_as_str
map-strings [] = refl
map-strings (s ∷ vals) = rw (map-strings vals)

module _ (resolve : PointerBuf → Value → Option Value) where
  field_values-HasValues :
      (t : JwtContextPointerType) (v : Value) (vals : List String)
      → field_values resolve t v ≡ ok vals
      → HasValues t v vals
  unfolding field_as_str_array
  field_values-HasValues JwtContextPointerType.string v vals h =
      let (s, p, e) = >>=-eq-ok (field_as_str v) (λ s. ok (s ∷ [])) {b = vals} h in
      subst (HasValues _ v) (cc) (one s v (field_as_str-string v s p))
  field_values-HasValues string_array v vals h =
      let (vs, p, h') = >>=-eq-ok (ok_or (as_array v) _) strings {b = vals} h in
      many v vs vals (ok_or-eq-ok (as_array v) _ p) (strings-map vs vals h')

  HasValues-field_values :
      (t : JwtContextPointerType) (v : Value) (vals : List String)
      → HasValues t v vals
      → field_values resolve t v ≡ ok vals
  unfolding field_as_str field_as_str_array
  HasValues-field_values _ _ _ (one s v e) = rw e
  HasValues-field_values _ _ _ (many v vs vals e m) = rw e (rw m (map-strings vals))

  -- The tuples that the context fields make of the claims: for each field, in order, one for each text
  -- that its claim holds.
  pub data HasContext (user : String) (claims : Value) : List JwtContext → List Tuple → Type 0 where
    end : HasContext user claims [] []
    field :
        {f : JwtContext} {fields : List JwtContext} {rest : List Tuple} (v : Value)
        (vals : List String)
        → resolve f.path claims ≡ some v
        → HasValues f.type v vals
        → HasContext user claims fields rest
        → HasContext user claims (f ∷ fields) (map (tuple_of resolve user f) vals ++ rest)

  unfold_values :
      (user : String) (f : JwtContext) (claims : Value) (tuples : List Tuple)
      → field_tuples resolve user f claims ≡ ok tuples
      → (v : Value) × (vals : List String) × (resolve f.path claims ≡ some v)
        × HasValues f.type v vals
        × (map (tuple_of resolve user f) vals ≡ tuples)
  unfolding field_tuples
  unfold_values user f claims tuples h =
      let (v, p, h') = >>=-eq-ok (ok_or (resolve f.path claims) _) _ {b = tuples} h in
      let (vals, q, e) =
        >>=-eq-ok (field_values resolve f.type v) (λ xs. ok (map (tuple_of resolve user f) xs))
          {b = tuples} h' in
      (v, vals, ok_or-eq-ok (resolve f.path claims) _ p, field_values-HasValues f.type v vals q, cc)

  context_tuples-HasContext :
      (user : String) (fields : List JwtContext) (claims : Value) (context : List Tuple)
      → context_tuples resolve user fields claims ≡ ok context
      → HasContext user claims fields context
  unfolding context_tuples
  context_tuples-HasContext user [] claims context h = subst (HasContext user claims []) (cc) end
  context_tuples-HasContext user (f ∷ fields) claims context h =
      let (tuples, p, h') = >>=-eq-ok (field_tuples resolve user f claims) _ {b = context} h in
      let (rest, q, e) =
        >>=-eq-ok (context_tuples resolve user fields claims) (λ rest. ok (tuples ++ rest))
          {b = context} h' in
      let (v, vals, found, has, same) = unfold_values user f claims tuples p in
      let joined : map (tuple_of resolve user f) vals ++ rest ≡ context = rw same (cc) in
      subst (HasContext user claims (f ∷ fields)) joined
        (field v vals found has (context_tuples-HasContext user fields claims rest q))

  HasContext-context_tuples :
      (user : String) (claims : Value) (fields : List JwtContext) (context : List Tuple)
      → HasContext user claims fields context
      → context_tuples resolve user fields claims ≡ ok context
  unfolding context_tuples field_tuples
  HasContext-context_tuples user claims _ _ end = refl
  HasContext-context_tuples user claims _ _ (field {f} {fields} {rest} v vals found has c) =
      rw found (
        rw (HasValues-field_values f.type v vals has)
          (rw (HasContext-context_tuples user claims fields rest c) refl))

  -- For a token, the checked tuple exists exactly where the claim at `claim_path` is a text and every
  -- context field finds a claim of its type. It names the text, with the group, as the user, and each
  -- contextual tuple stands for one text of one field's claim, in order.
  pub build_tuple_user-jwt :
      (config : OpenfgaAuthzConfig) (token : TokenData) (object_value : String) (body : CheckBody)
      → (build_tuple_user resolve config (jwt token) object_value ≡ ok body) ↔ (
          (sub : String) × (context : List Tuple) × (resolve config.jwt.claim_path token.claims
            ≡ some (string sub))
          × HasContext (member config.jwt.group sub) token.claims config.jwt.context_fields context
          × (check_body resolve config (member config.jwt.group sub) object_value context ≡ body))
  unfolding build_tuple_user field_as_str
  build_tuple_user-jwt config token object_value body = (
    λ h.
        let (v, p, h1) =
          >>=-eq-ok (ok_or (resolve config.jwt.claim_path token.claims) _) _ {b = body} h in
        let (sub, q, h2) = >>=-eq-ok (field_as_str v) _ {b = body} h1 in
        let (context, r, e) =
          >>=-eq-ok
            (context_tuples resolve (member config.jwt.group sub) config.jwt.context_fields
              token.claims)
            (λ c. ok (check_body resolve config (member config.jwt.group sub) object_value c))
            {b = body} h2 in
        (
          sub,
          context,
          rw (sym (field_as_str-string v sub q))
              (ok_or-eq-ok (resolve config.jwt.claim_path token.claims) _ p),
          context_tuples-HasContext _ config.jwt.context_fields token.claims context r,
          cc,
        ),
    λ (sub, context, found, c, e). rw found (
        rw (HasContext-context_tuples _ token.claims config.jwt.context_fields context c)
          (ap ok e)),
  )
