-- ===== src/Standalone/Examples.antt =====
-- The theorems about a standalone session at concrete sessions; a channel end is a number.
use overlay_mcp.Base.{
  String, eq_iff, ◌≡◌, ◌≢◌, refl, ℕ, ◌↔◌, true, false, some, not, List, [], ◌∷◌, ◌++◌, Any, ok, err,
}
use overlay_mcp.Core.Errors.{fatal, timeout}
use overlay_mcp.Standalone.{
  Connection, stopped, Slot, Session, lone, is_started_connection, new, put_upstream, cancel,
  is_started, start, finish_start, end_relay, stop, guard_stream,
}
use overlay_mcp.Standalone.Ends.{Steps, done, later, starts, opens, HasFailed, EndsAt, new-EndsAt}
use overlay_mcp.Standalone.Lost.{IsLost, finish_start-IsLost}
use overlay_mcp.Standalone.Stop.{IsClosed, cancel-IsClosed, stop-ok}
use overlay_mcp.Standalone.Relay.{
  Event, transport_stream, recv, message, lagged, closed, receiver_closed, relay_loop,
  relay_loop-passes_on,
}
use overlay_mcp.Standalone.Manager.{StandaloneManager, Use, creates, empty}

abbrev Example : Type 0
Example = Session ℕ ℕ ℕ ℕ ℕ

abbrev fresh : Example
unfolding new
fresh = new "s1" 1 2 3 4 5

abbrev opening : Example
unfolding start
opening = (start fresh).1

abbrev running : Example
unfolding finish_start
running = (finish_start opening (ok tt)).1

abbrev failed : Example
unfolding finish_start
failed = (finish_start opening (err (fatal timeout))).1

to_opening : Steps fresh opening
unfolding fresh opening
to_opening = later done starts

opening_waits : opening.starting ≡ some (4, 5)
unfolding opening start overlay_mcp.Standalone.take fresh new
opening_waits = refl

to_running : Steps fresh running
unfolding running
to_running = later to_opening (opens opening_waits (ok tt))

running_relays : running.relay ≡ some (4, 5)
unfolding running finish_start
running_relays = opening_waits

running_is_open : running.cancelled ≡ false
unfolding running finish_start opening start overlay_mcp.Standalone.take fresh new
running_is_open = refl

new-EndsAt_example : EndsAt (HasFailed to_running) 4 5 running
unfolding fresh
new-EndsAt_example = new-EndsAt "s1" 1 2 3 4 5 running to_running

finish_start-IsLost_example :
    IsLost failed × (is_started failed ≡ not failed.cancelled) × (¬ ((start failed).0 ≡ ok tt))
unfolding failed fresh
finish_start-IsLost_example =
    finish_start-IsLost "s1" 1 2 3 4 5 opening failed (4, 5) (fatal timeout) to_opening
      opening_waits done

cancel-IsClosed_example : IsClosed (start (cancel running)).1
cancel-IsClosed_example = cancel-IsClosed running (start (cancel running)).1 (later done starts)

stop-ok_example : ((stop running (end_relay running ∷ [])).0 ≡ ok tt) ↔ (
    (is_started running ≡ true)
    × Any (λ now. is_started_connection now.connection ≡ false) (end_relay running ∷ []))
stop-ok_example = stop-ok running (end_relay running ∷ [])

abbrev seven : Slot ℕ
seven = record { free = some 7; lent = [] }

abbrev relayed : List (Event ℕ ℕ)
relayed = transport_stream (some 1) ∷ recv lagged ∷ recv (message 8) ∷ []

abbrev ignored : List (Event ℕ ℕ)
ignored = transport_stream (some 2) ∷ []

relay_loop-passes_on_example :
    relay_loop (relayed ++ (recv closed ∷ ignored))
    ≡ record { to_client = 1 ∷ []; to_server = 8 ∷ [] }
relay_loop-passes_on_example =
    relay_loop-passes_on relayed ignored (recv closed)
      ((λ h. elim h [ ]), ((λ h. elim h [ ]), ((λ h. elim h [ ]), tt))) receiver_closed

abbrev first_id : String
first_id = "s1"

abbrev second_id : String
second_id = "s2"

apart : second_id ≢ first_id
apart = λ e. absurd (cc ((eq_iff second_id first_id).1 e))

abbrev ended : Example
unfolding cancel fresh
ended = cancel fresh

ended_id : ended.session_id ≡ first_id
unfolding ended cancel fresh new
ended_id = refl

ended_is_cancelled : ended.cancelled ≡ true
unfolding ended cancel
ended_is_cancelled = refl

abbrev another : List (Use ℕ ℕ ℕ ℕ ℕ)
another = creates second_id 1 2 3 4 5 ∷ []

abbrev none_yet : StandaloneManager ℕ ℕ ℕ ℕ ℕ
none_yet = empty
