-- ===== src/Raft/Relay/Examples.antt =====
-- The theorems about the loops at concrete runs.
use overlay_mcp.Base.{String, ◌≡◌, refl, false, some, List, [], ◌∷◌}
use overlay_mcp.Standalone.Relay.{message, lagged}
use overlay_mcp.Raft.Schema.{delete_session, Serde}
use overlay_mcp.Raft.Relay.{
  Event, remote, transport_stream, recv, stop as stopping, main_loop, sub_loop,
}
use overlay_mcp.Raft.Relay.Across.{
  ReadsBack, MainHears, SubHears, request_event, reply_event, across,
}

-- serde_json, where a message is its JSON text.
abbrev texts : Serde String
texts = record { to_string = λ m. some m; from_str = λ text. some text }

texts_back : ReadsBack texts
texts_back m = (m, refl, refl)

abbrev at_sub : List (Event String String)
at_sub =
    recv (message "ask")
    ∷ remote (some (request_event texts texts texts_back texts_back "s1" "ask"))
    ∷ remote (some (reply_event texts texts texts_back texts_back "s1" "reply"))
    ∷ stopping
    ∷ []

abbrev at_main : List (Event String String)
at_main =
    remote (some (delete_session "s2"))
    ∷ remote (some (request_event texts texts texts_back texts_back "s1" "ask"))
    ∷ recv lagged
    ∷ transport_stream (some "reply")
    ∷ stopping
    ∷ []

across_example :
    (sub_loop texts texts "s1" at_sub ≡ record {
      to_server = [];
      notified = request_event texts texts texts_back texts_back "s1" "ask" ∷ [];
      to_client = "reply" ∷ [];
      panicked = false;
    })
    × (main_loop texts texts "s1" at_main ≡ record {
      to_server = "ask" ∷ [];
      notified = reply_event texts texts texts_back texts_back "s1" "reply" ∷ [];
      to_client = "reply" ∷ [];
      panicked = false;
    })
across_example =
    across texts texts texts_back texts_back "s1" ("ask" ∷ []) ("reply" ∷ []) at_sub at_main
      (SubHears.asks (SubHears.other tt (SubHears.hears SubHears.end)))
      (MainHears.other tt (MainHears.hears (MainHears.lags (MainHears.replies MainHears.end))))
