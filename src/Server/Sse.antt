-- ===== src/Server/Sse.antt =====
-- crates/overlay-mcp-svr/src/router/sse.rs: `GET /sse`. The sessions, their manager and the resolver are
-- records and actions, as in Server/Message.antt; form_urlencoded's serializer is `encode`.
pub mod Stream
pub mod Examples
use overlay_mcp.Base.{String, ◌<>◌, Option, none, some, List, [], ◌∷◌, Result, ok, err, ok_or}
use overlay_mcp.Core.Errors.{Error, Url, not_found, session_not_found}
use overlay_mcp.Core.Models.{
  HttpReference, header, query, Authentication, api_key, jwt, no_auth, AuthorizationResult,
  to_err_response,
}
use overlay_mcp.Core.Action.{Action, pure, lift, ◌>>=◌, ◌>>◌}
use overlay_mcp.Core.General.{GeneralSession, GeneralSessionManager, ensure_started}

-- What `serializer` gets.
unfoldable pub endpoint_pairs : Authentication → (session_id : String) → List (String × String)
endpoint_pairs (api_key apikey (query name)) session_id =
    ("session_id", session_id) ∷ (name, apikey) ∷ []
endpoint_pairs (api_key _ (header _)) session_id = ("session_id", session_id) ∷ []
endpoint_pairs (jwt _) session_id = ("session_id", session_id) ∷ []
endpoint_pairs no_auth session_id = ("session_id", session_id) ∷ []

-- The data of the `endpoint` event.
unfoldable pub endpoint :
    (encode : List (String × String) → String) → Authentication → (session_id : String) → String
endpoint encode authn session_id = "/message?" <> encode (endpoint_pairs authn session_id)

-- The stream's loop: what `recv` gives, until its first error.
unfoldable pub messages : {M : Type 0} → List (Result M Error) → List M
messages [] = []
messages (ok message ∷ received) = message ∷ messages received
messages (err _ ∷ received) = []

-- `body`, and the drop of a guard that it does not get to hand on where it fails.
abbrev pub unless_ok : {W A : Type 0} → (W → W) → Result A Error × W → Result A Error × W
unless_ok drop (ok a, w) = (ok a, w)
unless_ok drop (err e, w) = (err e, drop w)

module _ {W Session Parts ClientMessage ServerMessage : Type 0}
    (g : GeneralSession W Session Parts ClientMessage ServerMessage)
    (m : GeneralSessionManager W Session) (resolve : Parts → Action W Url)
    (authorize_enter : Authentication → Action W AuthorizationResult)
    (encode : List (String × String) → String) where
  abbrev pub found_or : String → Option Session → Action W Session
  found_or session_id session = lift (ok_or session (not_found (session_not_found session_id)))

  -- `match session_id`
  unfoldable pub pick_session : Option String → Parts → Action W Session
  pick_session (some session_id) parts = m.find session_id >>= found_or session_id
  pick_session none parts = resolve parts >>= m.create

  -- From `guard_close` on: the event that the stream begins with, while it holds both guards.
  unfoldable pub open_stream : Authentication → Session → Action W String
  open_stream authn session = do
    g.guard_close session
    λ w. unless_ok (g.drop_close session) (g.guard_downstream session w)
    pure (endpoint encode authn (g.session_id session))

  -- The end of the stream drops its guards, the last one first.
  unfoldable pub end_stream : Session → W → W
  end_stream session w = g.drop_downstream session (g.drop_close session w)

  unfoldable pub handler : Authentication → Option String → Parts → Action W String
  handler authn session_id parts = do
    result ← authorize_enter authn
    lift (to_err_response result)
    session ← pick_session session_id parts
    ensure_started g session parts
    open_stream authn session
