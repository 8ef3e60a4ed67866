-- ===== src/Http/Builder/Examples.antt =====
-- The theorem about built requests at a concrete request.
use overlay_mcp.Base.{
  String, ◌==◌, ◌≡◌, refl, Bool, none, some, List, [], ◌∷◌, ◌++◌, lookup, ok, if◌then◌else◌,
}
use overlay_mcp.Http.Reference.{HttpMultiReference, header, query, query_regex}
use overlay_mcp.Http.Builder.{Uri, HeaderMap, HttpBuilder, new, apply}
use overlay_mcp.Http.Builder.Entries.{values_at, values_of}
use overlay_mcp.Http.Builder.Values.{taken_all, apply-values}

abbrev pairs : HeaderMap (List (String × String)) String String
unfolding lookup
pairs = record {
  empty = [];
  get = λ headers s. lookup s headers;
  iter = λ headers. headers;
  append = λ headers name value. headers ++ (name, value) ∷ [];
  from_str = λ s. some s;
}

abbrev parsed : String → List (String × String)
parsed text =
    if text == "dst" then ("page", "1") ∷ [] else ("page", "2") ∷ ("key", "k") ∷ ("page", "3") ∷ []

-- A regex that matches one text.
abbrev exactly : String → String → Bool
exactly r s = r == s

abbrev request_headers : List (String × String)
request_headers = ("host", "h") ∷ ("accept", "*") ∷ []

abbrev src : Uri
src = record { scheme = none; authority = none; path = "/sse"; query = some "src" }

abbrev dst : Uri
dst = record { scheme = some "http"; authority = some "up"; path = "/"; query = some "dst" }

abbrev references : List (HttpMultiReference String)
references = query "page" ∷ header "accept" ∷ query_regex "key" ∷ []

apply-values_example :
    (self after : HttpBuilder (List (String × String))) × (new pairs parsed exactly request_headers
        src dst
      ≡ ok self)
    × (apply pairs parsed exactly references self ≡ some (ok after))
    × ((key : String)
        → values_at key after.query
          ≡ values_of key (parsed "dst")
            ++ taken_all exactly key (values_of key (parsed "src")) references)
unfolding pairs
apply-values_example =
    apply-values pairs parsed exactly request_headers src dst "http" "up" "src" "dst" references
      (λ s v e. (s, refl), (("host", refl), (("accept", refl), tt))) refl refl refl refl
