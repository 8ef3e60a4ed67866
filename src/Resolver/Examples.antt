-- ===== src/Resolver/Examples.antt =====
-- The theorems about the resolvers at concrete URLs, and tests.
use overlay_mcp.Base.{String, ◌<>◌, ◌≡◌, refl, Option, none, some, List, [], ◌∷◌, arith}
use overlay_mcp.Core.Errors.{Url}
use overlay_mcp.Resolver.{take_turn, resolve, reload}
use overlay_mcp.Resolver.Rounds.{serve, answers, serve_round, Ends, take_turn-Ends}
use overlay_mcp.Resolver.Discovery.{last_found, FromAddress, resolve-last_found}

abbrev three : List Url
three = "http://a" ∷ "http://b" ∷ "http://c" ∷ []

serve_round_example :
    serve 3 (record { counter = 4; urls = three })
    ≡ answers ("http://b" ∷ "http://c" ∷ "http://a" ∷ [])
serve_round_example = serve_round three 4 (omega arith) (omega arith)

-- Where the counter wraps within a round, `http://a` is served twice in a row.
wrapped :
    serve 2 (record { counter = 18446744073709551615; urls = three })
    ≡ answers ("http://a" ∷ "http://a" ∷ [])
unfolding take_turn
wrapped = refl

take_turn-Ends_example : Ends (record { counter = 5; urls = three })
take_turn-Ends_example = take_turn-Ends (record { counter = 5; urls = three })

abbrev at_host : Url → String → Option Url
at_host url ip = some ("http://" <> ip)

abbrev lookups : List (Option (List String))
lookups = some ("10.0.0.1" ∷ []) ∷ none ∷ []

resolve-last_found_example :
    (ips : List String) × (last_found at_host lookups none ≡ some ips)
    × FromAddress at_host "http://mcp" ips "http://10.0.0.1"
unfolding resolve reload
resolve-last_found_example = resolve-last_found at_host "http://mcp" lookups "http://10.0.0.1" refl
