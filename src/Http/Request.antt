-- ===== src/Http/Request.antt =====
-- crates/httpbuilder/src/lib.rs, with what the program reads of `http::request::Parts`, and
-- crates/overlay-mcp-core/src/mcp.rs. `headers.get` and `form_urlencoded::parse` are the libraries':
-- the first is a field of the request, the second a parameter.
pub mod Lookup
use overlay_mcp.Base.{String, ◌==◌, Option, none, some, List, [], ◌∷◌, if◌then◌else◌}
use overlay_mcp.Core.Models.{HttpReference, header, query}

-- `to_str` is `none` where the header's bytes are no visible ASCII.
pub record HeaderValue : Type 0 where
  pub to_str : Option String

pub record Parts : Type 0 where
  pub headers : String → Option HeaderValue
  pub query : Option String

abbrev pub unwrap_or_default : Option String → String
unwrap_or_default none = ""
unwrap_or_default (some s) = s

-- `find(|(k, _)| k == s)` and `map(|(_, v)| v)`
unfoldable pub find_value : String → List (String × String) → Option String
find_value s [] = none
find_value s ((k, v) ∷ pairs) = if k == s then some v else find_value s pairs

abbrev header_text : Option HeaderValue → Option String
header_text none = none
header_text (some v) = some (unwrap_or_default v.to_str)

module _ (parse : String → List (String × String)) where
  unfoldable pub resolve : HttpReference → Parts → Option String
  unfolding find_value
  resolve (header s) src = header_text (src.headers s)
  resolve (query s) src = find_value s (parse (unwrap_or_default src.query))

  unfoldable pub pick_session_id : Parts → Option String
  unfolding find_value
  pick_session_id parts = find_value "session_id" (parse (unwrap_or_default parts.query))
