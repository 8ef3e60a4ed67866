-- ===== src/Http/Builder.antt =====
-- crates/httpbuilder/src/builder.rs: a request to another server that takes headers and query parameters of a
-- request. `http::HeaderMap`, the parts of a `Uri`, regexes and `form_urlencoded::parse` are parameters.
pub mod Entries
pub mod Values
pub mod Examples
use overlay_mcp.Base.{
  String, Bool, Option, none, some, List, [], ◌∷◌, ◌++◌, lookup, insert, if◌then◌else◌, Result, ok,
  err, ok_or, ◌>>=◌,
}
use overlay_mcp.Http.Reference.{HttpMultiReference, header, query, header_regex, query_regex}

pub data HttpBuilderError : Type 0 where
  no_scheme no_hostname no_query : HttpBuilderError

-- What is read of a `Uri`.
pub record Uri : Type 0 where
  pub scheme : Option String
  pub authority : Option String
  pub path : String
  pub query : Option String

-- `get` and `iter` read headers, `append` keeps those that are there; a name is `none` where `HeaderName::from_str` refuses it.
pub record HeaderMap (Headers Name Value : Type 0) : Type 0 where
  pub empty : Headers
  pub get : Headers → String → Option Value
  pub iter : Headers → List (String × Value)
  pub append : Headers → Name → Value → Headers
  pub from_str : String → Option Name

pub record HttpBuilder (Headers : Type 0) : Type 0 where
  pub src : Headers
  pub src_query : List (String × List String)
  pub scheme : String
  pub hostname : String
  pub path : String
  pub query : List (String × List String)
  pub headers : Headers

abbrev pub unwrap_or_empty : Option (List String) → List String
unwrap_or_empty none = []
unwrap_or_empty (some values) = values

-- `entry(key).or_default().extend(values)`, and `push` for a single one
unfoldable pub extend_entry :
    String → List String → List (String × List String) → List (String × List String)
extend_entry key values entries =
    insert key (unwrap_or_empty (lookup key entries) ++ values) entries

-- The loops of `new`.
unfoldable pub collect :
    List (String × String) → List (String × List String) → List (String × List String)
unfolding extend_entry
collect [] entries = entries
collect ((k, v) ∷ pairs) entries = collect pairs (extend_entry k (v ∷ []) entries)

module _ {Headers Name Value Regex : Type 0} (map : HeaderMap Headers Name Value)
    (parse : String → List (String × String)) (is_match : Regex → String → Bool) where
  unfoldable pub new : Headers → (src dst : Uri) → Result (HttpBuilder Headers) HttpBuilderError
  unfolding collect
  new src_headers src dst = do
    scheme ← ok_or dst.scheme no_scheme
    hostname ← ok_or dst.authority no_hostname
    decoded_query ← ok_or dst.query no_query
    src_decoded_query ← ok_or src.query no_query
    ok (record {
      src = src_headers;
      src_query = collect (parse src_decoded_query) [];
      scheme = scheme;
      hostname = hostname;
      path = dst.path;
      query = collect (parse decoded_query) [];
      headers = map.empty;
    })

  -- `HeaderName::from_str(name).unwrap()`, where `none` is a panic, and `append`
  abbrev pub append_named : Option Name → Value → HttpBuilder Headers → Option (HttpBuilder Headers)
  append_named none value self = none
  append_named (some name) value self =
      some (record self { headers = map.append self.headers name value })

  abbrev pub append_found :
      String → Option Value → HttpBuilder Headers → Option (HttpBuilder Headers)
  append_found s none self = some self
  append_found s (some value) self = append_named (map.from_str s) value self

  abbrev pub and_then :
      Option (HttpBuilder Headers)
      → (HttpBuilder Headers → Option (HttpBuilder Headers))
      → Option (HttpBuilder Headers)
  and_then none rest = none
  and_then (some self) rest = rest self

  unfoldable pub append_matches :
      Regex → List (String × Value) → HttpBuilder Headers → Option (HttpBuilder Headers)
  append_matches r [] self = some self
  append_matches r ((k, v) ∷ headers) self =
      let appended = if is_match r k then append_named (map.from_str k) v self else some self in
      and_then appended (append_matches r headers)

  abbrev pub extend_found :
      String → Option (List String) → List (String × List String) → List (String × List String)
  unfolding extend_entry
  extend_found s none entries = entries
  extend_found s (some values) entries = extend_entry s values entries

  unfoldable pub extend_matches :
      Regex
      → List (String × List String)
      → List (String × List String)
      → List (String × List String)
  unfolding extend_entry
  extend_matches r [] entries = entries
  extend_matches r ((k, v) ∷ found) entries =
      extend_matches r found (if is_match r k then extend_entry k v entries else entries)

  -- `match elem`
  unfoldable pub apply_one :
      HttpMultiReference Regex → HttpBuilder Headers → Option (HttpBuilder Headers)
  unfolding append_matches extend_found extend_matches
  apply_one (header s) self = append_found s (map.get self.src s) self
  apply_one (query s) self =
      some (record self { query = extend_found s (lookup s self.src_query) self.query })
  apply_one (header_regex r) self = append_matches r (map.iter self.src) self
  apply_one (query_regex r) self =
      some (record self { query = extend_matches r self.src_query self.query })

  unfoldable pub apply_all :
      List (HttpMultiReference Regex) → HttpBuilder Headers → Option (HttpBuilder Headers)
  unfolding apply_one
  apply_all [] self = some self
  apply_all (elem' ∷ elems) self = and_then (apply_one elem' self) (apply_all elems)

  abbrev answered :
      Option (HttpBuilder Headers) → Option (Result (HttpBuilder Headers) HttpBuilderError)
  answered none = none
  answered (some self) = some (ok self)

  unfoldable pub apply :
      List (HttpMultiReference Regex)
      → HttpBuilder Headers
      → Option (Result (HttpBuilder Headers) HttpBuilderError)
  unfolding apply_all
  apply elems self = answered (apply_all elems self)
