-- ===== src/Raft/Examples.antt =====
-- The theorems about raft sessions at concrete ones: the cluster's cache is an association list, its locks are always
-- free, and a channel end is a number.
use overlay_mcp.Base.{
  String, ℕ, if_same, ◌≡◌, ◌≢◌, refl, sym, ◌∙◌, inl, Option, none, some, List, [], ◌∷◌, lookup,
  insert, remove, lookup-insert, lookup-remove, Any, Result, ok,
}
use overlay_mcp.Raft.Schema.{RaftSessionData, RaftClient}
use overlay_mcp.Raft.Session.{
  RaftSession, Role, main, sub, stopped, started, new, cancel, guard_upstream, guard_downstream,
  guard_bypass_downstream, is_started, closed_error,
}
use overlay_mcp.Raft.Cluster.{start, stop, close}
use overlay_mcp.Raft.Election.{IsCache, start-role}
use overlay_mcp.Standalone
use overlay_mcp.Standalone.Ends
use overlay_mcp.Standalone.Replay.{Act, IsFailed, replay}
use overlay_mcp.Raft.Simulation
use overlay_mcp.Raft.Simulation.{as_standalone, OfSteps}
use overlay_mcp.Raft.Simulation.Runs.{new-Simulated}
use overlay_mcp.Raft.Alone.Runs as AloneRuns
use overlay_mcp.Raft.Alone.Runs.{new-SubOnly}

abbrev pub Cache : Type 0
Cache = List (String × RaftSessionData)

abbrev pub cache : RaftClient Cache
cache = record {
  lock = λ id w. (some (ok tt), w);
  drop_lock = λ id w. w;
  get = λ id w. (ok (lookup id w), w);
  put = λ id data' w. (ok tt, insert id data' w);
  delete = λ id w. (ok tt, remove id w);
  notify = λ event w. (ok tt, w);
}

pub ok-same :
    (a b : Option RaftSessionData)
    → Path (Result (Option RaftSessionData) String) (ok a) (ok b)
    → a ≡ b
ok-same a b h = cc

unfoldable pub cache-IsCache : IsCache cache
cache-IsCache = record {
  stored = lookup;
  get-stored = λ id w. refl;
  get-ok = λ id w d h. sym (ok-same (lookup id w) d h);
  put-ok = λ id d w h. lookup-insert id id d w ∙ if_same id _ _;
  put-err = λ id d w. inl (lookup-insert id id d w ∙ if_same id _ _);
  delete-stored = λ id w. inl (lookup-remove id id w ∙ if_same id _ _);
  delete-ok = λ id w h. lookup-remove id id w ∙ if_same id _ _;
  notify-stored = λ id event w. refl;
  drop_lock-stored = λ id w. refl;
}

abbrev pub Example : Type 0
Example = RaftSession ℕ ℕ ℕ ℕ ℕ

unfoldable pub fresh : Example
unfolding new
fresh = new "s1" "http://up" "n1" 1 2 3 4 5

abbrev pub known_data : RaftSessionData
known_data = record { session_id = "s1"; upstream_url = "http://up"; main_subsession_id = none }

abbrev pub world : Cache
world = ("s1", known_data) ∷ []

starts_role : (start cache fresh world).0 ≡ ok tt
unfolding start overlay_mcp.Raft.Cluster.elect overlay_mcp.Raft.Cluster.elect_locked
    overlay_mcp.Raft.Cluster.read_data lookup insert fresh new overlay_mcp.Raft.Session.run_role
    overlay_mcp.Raft.Session.start_sub_session overlay_mcp.Raft.Session.take
    overlay_mcp.Raft.Cluster.is_elected overlay_mcp.Raft.Cluster.claim
starts_role = refl

start-role_example :
    (d : RaftSessionData) × (chosen : String) × (lookup "s1" (start cache fresh world).1.1 ≡ some d)
    × (d.main_subsession_id ≡ some chosen)
    × (chosen ≡ "n1"
        → ((start cache fresh world).1.0.relay ≡ some (sub, (4, 5)))
          × ((start cache fresh world).1.0.starting ≡ none))
    × (chosen ≢ "n1"
        → ((start cache fresh world).1.0.starting ≡ some (4, 5))
          × ((start cache fresh world).1.0.relay ≡ none))
unfolding fresh new lookup cache-IsCache
start-role_example = start-role cache cache-IsCache fresh 4 5 world refl starts_role

pub stored_known : lookup "s1" world ≡ some known_data
unfolding lookup
stored_known = refl

new-SubOnly_example :
    ((start cache fresh world).1.0.starting ≡ none)
    × ((ends : ℕ × ℕ) → ¬ ((start cache fresh world).1.0.relay ≡ some (main, ends)))
unfolding fresh cache-IsCache lookup
new-SubOnly_example =
    new-SubOnly cache cache-IsCache (λ id w. refl) "s1" "n1" "http://up" 1 2 3 4 5 known_data world
      _ _ stored_known refl (AloneRuns.later AloneRuns.done AloneRuns.starts)

abbrev one_start : Simulation.Steps fresh (start cache fresh world).1.0
one_start = Simulation.later Simulation.done (Simulation.starts cache world)

new-Simulated_example :
    (script : List (Act ℕ ℕ ℕ)) × OfSteps one_start script
    × (replay script (Standalone.new "s1" 1 2 3 4 5) ≡ as_standalone (start cache fresh world).1.0)
    × Ends.EndsAt (Any IsFailed script) 4 5 (as_standalone (start cache fresh world).1.0)
unfolding fresh
new-Simulated_example =
    new-Simulated "s1" "http://up" "n1" 1 2 3 4 5 (start cache fresh world).1.0 one_start
