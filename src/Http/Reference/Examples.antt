-- ===== src/Http/Reference/Examples.antt =====
-- The theorem about references at an example, and tests.
use overlay_mcp.Base.{String, ◌==◌, ◌||◌, ◌≡◌, refl, ◌↔◌, Bool, true, false, Result, ok, err}
use overlay_mcp.Core.Models.{HttpReference}
use overlay_mcp.Http.Reference.{header_regex, display, deserialize, visit_str}
use overlay_mcp.Http.Reference.Printed.{IsPlain, display-IsPlain}

-- What the pattern `^/[.+]/$` matches.
abbrev two_texts : String → Bool
two_texts s = (s == "/./") || (s == "/+/")

abbrev as_text : String → Result String String
as_text s = ok s

long_regex_is_a_name :
    deserialize two_texts as_text "header:/x-.*/" ≡ ok (HttpReference.header "/x-.*/")
unfolding deserialize visit_str overlay_mcp.Base.split
long_regex_is_a_name = refl

as_text-compiled : (v r : String) → Path (Result String String) (as_text v) (ok r) → r ≡ v
as_text-compiled v r h = cc

-- The reference is printed as `header:/x-.*/`.
display-IsPlain_example :
    (visit_str two_texts as_text (display (λ r. r) (header_regex "x-.*"))
      ≡ ok (header_regex "x-.*"))
    ↔ IsPlain two_texts as_text (λ r. r) as_text-compiled (header_regex "x-.*")
display-IsPlain_example =
    display-IsPlain two_texts as_text (λ r. r) as_text-compiled (header_regex "x-.*")
