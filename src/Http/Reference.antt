-- ===== src/Http/Reference.antt =====
-- crates/httpbuilder/src/http_reference.rs: the text of a reference to a header or a query parameter. The
-- regex library is a parameter: `is_regex` is the match of `REGEX_VALUE_PATTERN`, `new_regex` is
-- `Regex::new`.
pub mod Reading
pub mod Printed
pub mod Examples
use overlay_mcp.Base.{
  String, ◌<>◌, ◌==◌, Bool, true, false, List, [], ◌∷◌, split, if◌then◌else◌, Result, ok, err,
  ◌>>=◌,
}
use overlay_mcp.Core.Models.{HttpReference}

pub data HttpMultiReference (Regex : Type 0) : Type 0 where
  header query : String → HttpMultiReference Regex
  header_regex query_regex : Regex → HttpMultiReference Regex

-- `Display for HttpReference`
unfoldable pub to_string : HttpReference → String
to_string (HttpReference.header s) = "header:" <> s
to_string (HttpReference.query s) = "query:" <> s

-- `Display for HttpMultiReference`; `as_str` is `Regex::as_str`.
unfoldable pub display :
    {Regex : Type 0} (as_str : Regex → String) → HttpMultiReference Regex → String
display as_str (header s) = "header:" <> s
display as_str (query s) = "query:" <> s
display as_str (header_regex r) = "header:" <> ("/" <> (as_str r <> "/"))
display as_str (query_regex r) = "query:" <> ("/" <> (as_str r <> "/"))

abbrev pub expected_format : String
expected_format =
    "expected format: header:name or query:name or header:/{regex}/ or query:/{regex}/ or context:{json pointer}"

abbrev unknown_prefix : String → String
unknown_prefix prefix =
    "expected format: header:{...} or query:{...} or context:{...} or unsafe:{...} but got "
    <> (prefix <> ":{...}")

module _ {Regex : Type 0} (is_regex : String → Bool)
    (new_regex : String → Result Regex String) where
  abbrev pub regex_or :
      (Regex → HttpMultiReference Regex)
      → Result Regex String
      → Result (HttpMultiReference Regex) String
  regex_or reference r = do regex ← r; ok (reference regex)

  -- `match (*prefix, is_regex)`
  abbrev pub pick : (prefix value : String) → Result (HttpMultiReference Regex) String
  pick prefix value =
      if prefix == "header"
      then if is_regex value then regex_or header_regex (new_regex value) else ok (header value)
      else if prefix == "query"
      then if is_regex value then regex_or query_regex (new_regex value) else ok (query value)
      else err (unknown_prefix prefix)

  -- `let [prefix, value, ..]`
  abbrev pub from_parts : List String → Result (HttpMultiReference Regex) String
  from_parts (prefix ∷ value ∷ _) = pick prefix value
  from_parts _ = err expected_format

  unfoldable pub visit_str : String → Result (HttpMultiReference Regex) String
  visit_str v = from_parts (split 58 v)

  abbrev pub single : HttpMultiReference Regex → Result HttpReference String
  single (header s) = ok (HttpReference.header s)
  single (query s) = ok (HttpReference.query s)
  single (header_regex _) = err "header regex cannot be deserialized"
  single (query_regex _) = err "query regex cannot be deserialized"

  -- `Deserialize for HttpReference`
  unfoldable pub deserialize : String → Result HttpReference String
  unfolding visit_str
  deserialize v = do decoded ← visit_str v; single decoded
