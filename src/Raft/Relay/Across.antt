-- ===== src/Raft/Relay/Across.antt =====
-- A message across the cluster: from the node of the client to the node of the server, and back.
use overlay_mcp.Base.{
  String, ◌==◌, eq_iff, if_distinct, ◌≡◌, ◌≢◌, refl, ap, ◌∙◌, true, false, none, some, List, [],
  ◌∷◌, map,
}
use overlay_mcp.Standalone.Relay.{message, lagged}
use overlay_mcp.Raft.Schema.{
  RaftSchemaEvent, delete_session, new_main_session, notify_to_sub_session, notify_to_main_session,
  Serde, event_to_main, event_to_sub, to_client_json_rpc_message, to_server_json_rpc_message,
}
use overlay_mcp.Raft.Relay.{
  Event, remote, transport_stream, recv, stop, Sent, serve, tell, pass, heard_by_main, heard_by_sub,
  main_loop, sub_loop,
}

-- serde_json reads back what it writes.
abbrev pub ReadsBack : {M : Type 0} → Serde M → Type 0
ReadsBack serde =
    (m : _) → (text : String) × (serde.to_string m ≡ some text) × (serde.from_str text ≡ some m)

-- The event is not for the main part of the session, or not for its sub parts.
abbrev pub NotForMain : String → RaftSchemaEvent → Type 0
NotForMain id (notify_to_main_session e) = e.session_id ≢ id
NotForMain id _ = Unit

abbrev pub NotForSub : String → RaftSchemaEvent → Type 0
NotForSub id (notify_to_sub_session e) = e.session_id ≢ id
NotForSub id _ = Unit

module _ {C M : Type 0} (client_json : Serde C) (server_json : Serde M)
    (client_back : ReadsBack client_json) (server_back : ReadsBack server_json) (id : String) where
  abbrev pub request_event : C → RaftSchemaEvent
  request_event m =
      notify_to_main_session (record { session_id = id; raw_json = (client_back m).0 })

  abbrev pub reply_event : M → RaftSchemaEvent
  reply_event m = notify_to_sub_session (record { session_id = id; raw_json = (server_back m).0 })

  -- The events of a main session's run until it is stopped: from the cluster it hears the requests of one list,
  -- its transport gives the replies of another, and the rest is for others or is an error.
  pub data MainHears : List C → List M → List (Event C M) → Type 0 where
    end : {events : List (Event C M)} → MainHears [] [] (stop ∷ events)
    hears :
        {c : C} {cs : List C} {ms : List M} {events : List (Event C M)}
        → MainHears cs ms events
        → MainHears (c ∷ cs) ms (remote (some (request_event c)) ∷ events)
    replies :
        {m : M} {cs : List C} {ms : List M} {events : List (Event C M)}
        → MainHears cs ms events
        → MainHears cs (m ∷ ms) (transport_stream (some m) ∷ events)
    other :
        {e : RaftSchemaEvent} {cs : List C} {ms : List M} {events : List (Event C M)}
        → NotForMain id e
        → MainHears cs ms events
        → MainHears cs ms (remote (some e) ∷ events)
    misses :
        {cs : List C} {ms : List M} {events : List (Event C M)}
        → MainHears cs ms events
        → MainHears cs ms (remote none ∷ events)
    lags :
        {cs : List C} {ms : List M} {events : List (Event C M)}
        → MainHears cs ms events
        → MainHears cs ms (recv lagged ∷ events)

  -- As much for a sub session: its clients give the requests, and it hears the replies.
  pub data SubHears : List C → List M → List (Event C M) → Type 0 where
    end : {events : List (Event C M)} → SubHears [] [] (stop ∷ events)
    asks :
        {c : C} {cs : List C} {ms : List M} {events : List (Event C M)}
        → SubHears cs ms events
        → SubHears (c ∷ cs) ms (recv (message c) ∷ events)
    hears :
        {m : M} {cs : List C} {ms : List M} {events : List (Event C M)}
        → SubHears cs ms events
        → SubHears cs (m ∷ ms) (remote (some (reply_event m)) ∷ events)
    other :
        {e : RaftSchemaEvent} {cs : List C} {ms : List M} {events : List (Event C M)}
        → NotForSub id e
        → SubHears cs ms events
        → SubHears cs ms (remote (some e) ∷ events)
    misses :
        {cs : List C} {ms : List M} {events : List (Event C M)}
        → SubHears cs ms events
        → SubHears cs ms (remote none ∷ events)
    lags :
        {cs : List C} {ms : List M} {events : List (Event C M)}
        → SubHears cs ms events
        → SubHears cs ms (recv lagged ∷ events)

  own_id : (id == id) ≡ true
  own_id = (eq_iff id id).1 refl

  main_passes :
      (e : RaftSchemaEvent) (sent : Sent C M)
      → NotForMain id e
      → heard_by_main client_json server_json id e sent ≡ sent
  unfolding to_client_json_rpc_message
  main_passes (delete_session _) sent h = refl
  main_passes (new_main_session _ _) sent h = refl
  main_passes (notify_to_sub_session _) sent h = refl
  main_passes (notify_to_main_session e) sent h = if_distinct e.session_id id h _ _

  sub_passes :
      (e : RaftSchemaEvent) (sent : Sent C M)
      → NotForSub id e
      → heard_by_sub client_json server_json id e sent ≡ sent
  unfolding to_server_json_rpc_message
  sub_passes (delete_session _) sent h = refl
  sub_passes (new_main_session _ _) sent h = refl
  sub_passes (notify_to_main_session _) sent h = refl
  sub_passes (notify_to_sub_session e) sent h = if_distinct e.session_id id h _ _

  main_takes :
      (c : C) (sent : Sent C M)
      → heard_by_main client_json server_json id (request_event c) sent ≡ serve c sent
  unfolding to_client_json_rpc_message
  main_takes c sent = rw (own_id, (client_back c).2) refl

  sub_takes :
      (m : M) (sent : Sent C M)
      → heard_by_sub client_json server_json id (reply_event m) sent ≡ pass m sent
  unfolding to_server_json_rpc_message
  sub_takes m sent = rw (own_id, (server_back m).2) refl

  abbrev main_result : List C → List M → Sent C M
  main_result cs ms = record {
    to_server = cs;
    notified = map reply_event ms;
    to_client = ms;
    panicked = false;
  }

  abbrev sub_result : List C → List M → Sent C M
  sub_result cs ms = record {
    to_server = [];
    notified = map request_event cs;
    to_client = ms;
    panicked = false;
  }

  pub main_loop-sent :
      (cs : List C) (ms : List M) (events : List (Event C M))
      → MainHears cs ms events
      → main_loop client_json server_json id events ≡ main_result cs ms
  unfolding main_loop event_to_sub
  main_loop-sent _ _ _ end = refl
  main_loop-sent _ _ _ (hears {c} {cs} {ms} {events} h) =
      main_takes c (main_loop client_json server_json id events)
      ∙ ap (serve c) (main_loop-sent cs ms events h)
  main_loop-sent _ _ _ (replies {m} {cs} {ms} {events} h) =
      rw ((server_back m).1)
        (ap (λ s. tell (reply_event m) (pass m s)) (main_loop-sent cs ms events h))
  main_loop-sent _ _ _ (other {e} {cs} {ms} {events} n h) =
      main_passes e (main_loop client_json server_json id events) n ∙ main_loop-sent cs ms events h
  main_loop-sent _ _ _ (misses {cs} {ms} {events} h) = main_loop-sent cs ms events h
  main_loop-sent _ _ _ (lags {cs} {ms} {events} h) = main_loop-sent cs ms events h

  pub sub_loop-sent :
      (cs : List C) (ms : List M) (events : List (Event C M))
      → SubHears cs ms events
      → sub_loop client_json server_json id events ≡ sub_result cs ms
  unfolding sub_loop event_to_main
  sub_loop-sent _ _ _ end = refl
  sub_loop-sent _ _ _ (asks {c} {cs} {ms} {events} h) =
      rw ((client_back c).1) (ap (λ s. tell (request_event c) s) (sub_loop-sent cs ms events h))
  sub_loop-sent _ _ _ (hears {m} {cs} {ms} {events} h) =
      sub_takes m (sub_loop client_json server_json id events)
      ∙ ap (pass m) (sub_loop-sent cs ms events h)
  sub_loop-sent _ _ _ (other {e} {cs} {ms} {events} n h) =
      sub_passes e (sub_loop client_json server_json id events) n ∙ sub_loop-sent cs ms events h
  sub_loop-sent _ _ _ (misses {cs} {ms} {events} h) = sub_loop-sent cs ms events h
  sub_loop-sent _ _ _ (lags {cs} {ms} {events} h) = sub_loop-sent cs ms events h

  -- Two nodes of a session that hear each other's events, whose messages serde_json reads back, one with a
  -- sub session, the other with the main session and no requests of its own clients: the requests that the
  -- clients of the first give it reach the server of the other, in order and each once; the server's
  -- replies reach these clients, as well as those of its own node; each sends to the cluster just what the
  -- other hears; and no `unwrap` panics. Events of other sessions, errors and lags in between change nothing
  -- of it.
  pub across :
      (requests : List C) (answers : List M) (at_sub at_main : List (Event C M))
      → SubHears requests answers at_sub
      → MainHears requests answers at_main
      → (sub_loop client_json server_json id at_sub ≡ record {
        to_server = [];
        notified = map request_event requests;
        to_client = answers;
        panicked = false;
      })
        × (main_loop client_json server_json id at_main ≡ record {
          to_server = requests;
          notified = map reply_event answers;
          to_client = answers;
          panicked = false;
        })
  across requests answers at_sub at_main h k =
      (sub_loop-sent requests answers at_sub h, main_loop-sent requests answers at_main k)
