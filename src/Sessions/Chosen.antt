-- ===== src/Sessions/Chosen.antt =====
-- The handlers behave with the session manager as with the one that is chosen.
use mathlib.Core.Option
use overlay_mcp.Base.{String, ℕ, ◌≡◌, refl, Option, none, some, List}
use overlay_mcp.Core.Errors.{Url, not_found, session_not_found}
use overlay_mcp.Core.Models.{
  Authentication, AuthorizationResult, allow, deny, unauthorized, to_err_response,
}
use overlay_mcp.Core.Action.{Action, fail, lift, ◌>>◌}
use overlay_mcp.Core.Runs.{>>=-cong}
use overlay_mcp.Core.General.{GeneralSession, GeneralSessionManager, ensure_started}
use overlay_mcp.Server.Message.{JsonRpcMessage}
use overlay_mcp.Server.Message
use overlay_mcp.Server.Sse
use overlay_mcp.Sessions.Mapped.{mapped-cong, found_mapped, created_mapped}
use overlay_mcp.Sessions.{SessionManager, Session, session_ops, manager_ops, mapped}

module _ {W S R SM RM Parts Req Res Noti SReq SRes SNoti : Type 0}
    (s : GeneralSession W S Parts (JsonRpcMessage Req Res Noti) (JsonRpcMessage SReq SRes SNoti))
    (r : GeneralSession W R Parts (JsonRpcMessage Req Res Noti) (JsonRpcMessage SReq SRes SNoti))
    (sm : SM → GeneralSessionManager W S) (rm : RM → GeneralSessionManager W R) where
  abbrev message_rest :
      {T : Type 0}
      → GeneralSession W T Parts (JsonRpcMessage Req Res Noti) (JsonRpcMessage SReq SRes SNoti)
      → String
      → Parts
      → JsonRpcMessage Req Res Noti
      → AuthorizationResult
      → Option T
      → Action W ℕ
  message_rest g id parts json result found = elim found [
    | none ↦ fail (not_found (session_not_found id))
    | some session ↦ do
      ensure_started g session parts
      Message.answer g result session json
      Message.forward g session json
  ]

  rest-standalone :
      (id : String) (parts : Parts) (json : JsonRpcMessage Req Res Noti)
      (result : AuthorizationResult) (found : Option S) (w : W)
      → message_rest (session_ops s r) id parts json result (Option.map Session.standalone found) w
        ≡ message_rest s id parts json result found w
  unfolding session_ops ensure_started Message.answer Message.refuse Message.forward
  rest-standalone id parts json result none w = refl
  rest-standalone id parts json allow (some session) w = refl
  rest-standalone id parts json deny (some session) w = refl
  rest-standalone id parts json unauthorized (some session) w = refl

  rest-raft :
      (id : String) (parts : Parts) (json : JsonRpcMessage Req Res Noti)
      (result : AuthorizationResult) (found : Option R) (w : W)
      → message_rest (session_ops s r) id parts json result (Option.map Session.raft found) w
        ≡ message_rest r id parts json result found w
  unfolding session_ops ensure_started Message.answer Message.refuse Message.forward
  rest-raft id parts json result none w = refl
  rest-raft id parts json allow (some session) w = refl
  rest-raft id parts json deny (some session) w = refl
  rest-raft id parts json unauthorized (some session) w = refl

  module _
      (authorize_client_message : Authentication
        → JsonRpcMessage Req Res Noti
        → Action W AuthorizationResult)
      (authn : Authentication) (id : String) (parts : Parts) (json : JsonRpcMessage Req Res Noti)
      (w : W) where
    message-standalone :
        (manager : SM)
        → Message.handler
            (session_ops s r)
            (manager_ops sm rm (SessionManager.standalone manager))
            authorize_client_message
            authn
            id
            parts
            json
            w
          ≡ Message.handler s (sm manager) authorize_client_message authn id parts json w
    unfolding Message.handler manager_ops
    message-standalone manager = >>=-cong (authorize_client_message authn json) _ _ w (λ result v.
        mapped-cong (Option.map {B = Session S R} Session.standalone)
          ((manager_ops sm rm (SessionManager.standalone manager)).find id) ((sm manager).find id)
          (message_rest (session_ops s r) id parts json result)
          (message_rest s id parts json result) v refl
          (λ found u. rest-standalone id parts json result found u))

    message-raft :
        (manager : RM)
        → Message.handler
            (session_ops s r)
            (manager_ops sm rm (SessionManager.raft manager))
            authorize_client_message
            authn
            id
            parts
            json
            w
          ≡ Message.handler r (rm manager) authorize_client_message authn id parts json w
    unfolding Message.handler manager_ops
    message-raft manager = >>=-cong (authorize_client_message authn json) _ _ w (λ result v.
        mapped-cong (Option.map {B = Session S R} Session.raft)
          ((manager_ops sm rm (SessionManager.raft manager)).find id) ((rm manager).find id)
          (message_rest (session_ops s r) id parts json result)
          (message_rest r id parts json result) v refl
          (λ found u. rest-raft id parts json result found u))

  module _ (resolve : Parts → Action W Url)
      (authorize_enter : Authentication → Action W AuthorizationResult)
      (encode : List (String × String) → String) (authn : Authentication) (id : Option String)
      (parts : Parts) (w : W) where
    abbrev sse_rest :
        {T : Type 0}
        → GeneralSession W T Parts (JsonRpcMessage Req Res Noti) (JsonRpcMessage SReq SRes SNoti)
        → GeneralSessionManager W T
        → T
        → Action W String
    sse_rest g m session = do
      ensure_started g session parts
      Sse.open_stream g m resolve authorize_enter encode authn session

    pick-standalone :
        (manager : SM) (id : Option String) (v : W)
        → Sse.pick_session
            (session_ops s r)
            (manager_ops sm rm (SessionManager.standalone manager))
            resolve
            authorize_enter
            encode
            id
            parts
            v
          ≡ mapped Session.standalone
              (Sse.pick_session s (sm manager) resolve authorize_enter encode id parts v)
    unfolding Sse.pick_session manager_ops
    pick-standalone manager (some id) v =
        found_mapped Session.standalone (not_found (session_not_found id)) ((sm manager).find id v)
    pick-standalone manager none v =
        created_mapped Session.standalone (sm manager).create (resolve parts v)

    sse-standalone :
        (manager : SM)
        → Sse.handler
            (session_ops s r)
            (manager_ops sm rm (SessionManager.standalone manager))
            resolve
            authorize_enter
            encode
            authn
            id
            parts
            w
          ≡ Sse.handler s (sm manager) resolve authorize_enter encode authn id parts w
    unfolding Sse.handler session_ops ensure_started Sse.open_stream
    sse-standalone manager = >>=-cong (authorize_enter authn) _ _ w (λ result v.
        >>=-cong (lift (to_err_response result)) _ _ v (λ _ u.
          mapped-cong {B = Session S R} Session.standalone
            (Sse.pick_session (session_ops s r)
              (manager_ops sm rm (SessionManager.standalone manager)) resolve authorize_enter encode
              id parts)
            (Sse.pick_session s (sm manager) resolve authorize_enter encode id parts)
            (sse_rest (session_ops s r) (manager_ops sm rm (SessionManager.standalone manager)))
            (sse_rest s (sm manager)) u (pick-standalone manager id u) (λ session t. refl)))

    pick-raft :
        (manager : RM) (id : Option String) (v : W)
        → Sse.pick_session
            (session_ops s r)
            (manager_ops sm rm (SessionManager.raft manager))
            resolve
            authorize_enter
            encode
            id
            parts
            v
          ≡ mapped Session.raft
              (Sse.pick_session r (rm manager) resolve authorize_enter encode id parts v)
    unfolding Sse.pick_session manager_ops
    pick-raft manager (some id) v =
        found_mapped Session.raft (not_found (session_not_found id)) ((rm manager).find id v)
    pick-raft manager none v = created_mapped Session.raft (rm manager).create (resolve parts v)

    sse-raft :
        (manager : RM)
        → Sse.handler
            (session_ops s r)
            (manager_ops sm rm (SessionManager.raft manager))
            resolve
            authorize_enter
            encode
            authn
            id
            parts
            w
          ≡ Sse.handler r (rm manager) resolve authorize_enter encode authn id parts w
    unfolding Sse.handler session_ops ensure_started Sse.open_stream
    sse-raft manager = >>=-cong (authorize_enter authn) _ _ w (λ result v.
        >>=-cong (lift (to_err_response result)) _ _ v (λ _ u.
          mapped-cong {B = Session S R} Session.raft
            (Sse.pick_session (session_ops s r) (manager_ops sm rm (SessionManager.raft manager))
              resolve authorize_enter encode id parts)
            (Sse.pick_session r (rm manager) resolve authorize_enter encode id parts)
            (sse_rest (session_ops s r) (manager_ops sm rm (SessionManager.raft manager)))
            (sse_rest r (rm manager)) u (pick-raft manager id u) (λ session t. refl)))

  -- Both handlers give the same result, and do the same, with the session manager as with the one that it stands for,
  -- standalone or raft.
  pub handlers-chosen :
      (authorize_client_message : Authentication
        → JsonRpcMessage Req Res Noti
        → Action W AuthorizationResult)
      (resolve : Parts → Action W Url)
      (authorize_enter : Authentication → Action W AuthorizationResult)
      (encode : List (String × String) → String) (authn : Authentication) (id : String)
      (sse_id : Option String) (parts : Parts) (json : JsonRpcMessage Req Res Noti) (w : W)
      → ((manager : SM)
          → let chosen = manager_ops sm rm (SessionManager.standalone manager) in
            (Message.handler (session_ops s r) chosen authorize_client_message authn id parts json w
              ≡ Message.handler s (sm manager) authorize_client_message authn id parts json w)
            × (Sse.handler
                  (session_ops s r)
                  chosen
                  resolve
                  authorize_enter
                  encode
                  authn
                  sse_id
                  parts
                  w
                ≡ Sse.handler s (sm manager) resolve authorize_enter encode authn sse_id parts w))
        × ((manager : RM)
            → let chosen = manager_ops sm rm (SessionManager.raft manager) in
              (Message.handler
                  (session_ops s r)
                  chosen
                  authorize_client_message
                  authn
                  id
                  parts
                  json
                  w
                ≡ Message.handler r (rm manager) authorize_client_message authn id parts json w)
              × (Sse.handler
                    (session_ops s r)
                    chosen
                    resolve
                    authorize_enter
                    encode
                    authn
                    sse_id
                    parts
                    w
                  ≡ Sse.handler r (rm manager) resolve authorize_enter encode authn sse_id parts w))
  handlers-chosen authorize_client_message resolve authorize_enter encode authn id sse_id parts json
        w =
      (
        λ manager. (
          message-standalone authorize_client_message authn id parts json w manager,
          sse-standalone resolve authorize_enter encode authn sse_id parts w manager,
        ),
        λ manager. (
          message-raft authorize_client_message authn id parts json w manager,
          sse-raft resolve authorize_enter encode authn sse_id parts w manager,
        ),
      )
