-- ===== src/Server/Sse/Examples.antt =====
-- The theorems about `GET /sse` at a client with an API key.
use overlay_mcp.Base.{String, ◌≡◌, ◌≢◌, refl, none, some, List}
use overlay_mcp.Core.Models.{query, Authentication, api_key}
use overlay_mcp.Http.Request.{Parts, pick_session_id, resolve}
use overlay_mcp.Server.Sse.{endpoint_pairs}
use overlay_mcp.Server.Sse.Stream.{endpoint_pairs-read_back}

abbrev key_client : Authentication
key_client = api_key "k1" (query "key")

-- Libraries for which the text is only a name of the pairs.
abbrev pairs_of : String → List (String × String)
unfolding endpoint_pairs
pairs_of _ = endpoint_pairs key_client "s1"

abbrev told : Parts
told = record { headers = λ name. none; query = some "session_id=s1&key=k1" }

abbrev as_told : List (String × String) → String
as_told _ = "session_id=s1&key=k1"

endpoint_pairs-read_back_example :
    (pick_session_id pairs_of told ≡ some "s1")
    × ((apikey name : String)
        → key_client ≡ api_key apikey (query name)
        → name ≢ "session_id"
        → resolve pairs_of (query name) told ≡ some apikey)
unfolding pairs_of
endpoint_pairs-read_back_example =
    endpoint_pairs-read_back pairs_of as_told key_client "s1" told refl refl
