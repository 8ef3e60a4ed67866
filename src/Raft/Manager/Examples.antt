-- ===== src/Raft/Manager/Examples.antt =====
-- The theorems about a node's manager at concrete nodes.
use overlay_mcp.Base.{
  String, ℕ, ◌≡◌, ◌≢◌, refl, sym, ◌∙◌, ◌↔◌, inl, true, false, Option, none, some, List, [], ◌∷◌,
  lookup, insert, remove, lookup-insert, lookup-remove, if_same, get_elem?, ok, err,
}
use mathlib.Core.Option
use overlay_mcp.Raft.Schema.{RaftSchemaEvent, RaftClient}
use overlay_mcp.Raft.Session.{
  new, cancel, guard_upstream, guard_downstream, guard_bypass_downstream, guard_close, is_started,
  closed_error,
}
use overlay_mcp.Raft.Cluster.{start, stop, close}
use overlay_mcp.Raft.Election.{IsCache}
use overlay_mcp.Raft.Node.{Node, RaftConfig, NodeConfig, node_config}
use overlay_mcp.Raft.Node.Resolved.{Names, OutOfRange, node_config-resolved}
use overlay_mcp.Raft.Manager.{RaftManager, on_event, create, find}
use overlay_mcp.Raft.Manager.Found.{create-found}
use overlay_mcp.Raft.Manager.Closed.{IsNotified, close-gone, cancelled-found}
use overlay_mcp.Raft.Examples.{
  Cache, ok-same, cache, Example, fresh, known_data, world, cache-IsCache, stored_known,
}

abbrev empty_node : RaftManager ℕ ℕ ℕ ℕ ℕ
empty_node = record { sessions = []; events = [] }

abbrev with_cancelled : RaftManager ℕ ℕ ℕ ℕ ℕ
with_cancelled = record { sessions = ("s1", record fresh { cancelled = true }) ∷ []; events = [] }

abbrev by_index : RaftConfig (Unit {0})
by_index = record {
  id = none;
  index = some 1;
  secret = "secret";
  cluster = tt;
  nodes =
      record { id = 7; api = "a:1"; raft = "a:2"; read_pool_size = 10 }
      ∷ record { id = 9; api = "b:1"; raft = "b:2"; read_pool_size = 4 }
      ∷ [];
}

node_config-resolved_example :
    (node_config by_index ≡ none ↔ OutOfRange by_index)
    × ((c : NodeConfig (Unit {0}))
        → node_config by_index ≡ some (ok c)
        → (node : Node) × (pos : ℕ) × (get_elem? by_index.nodes pos ≡ some node)
          × Names by_index node pos
          × (c.node_id ≡ node.id))
    × ((node : Node) (pos : ℕ)
        → get_elem? by_index.nodes pos ≡ some node
        → Names by_index node pos
        → (c : NodeConfig (Unit {0})) × (node_config by_index ≡ some (ok c))
          × (c.node_id ≡ node.id))
node_config-resolved_example = node_config-resolved by_index

create-found_example :
    let made = (create cache "n1" 1 2 3 4 5 "s1" "http://up" empty_node []).1 in
    ((sub_id' : String) (u' d' b' r' s' : ℕ) (o : Option Example)
      → (find cache sub_id' u' d' b' r' s' "s1" made.0 made.1).0 ≡ ok o
      → o ≡ some fresh)
    × ((node : RaftManager ℕ ℕ ℕ ℕ ℕ) (sub_id' : String) (u' d' b' r' s' : ℕ)
          (o again : Option Example)
        → lookup "s1" node.sessions ≡ none
        → (find cache sub_id' u' d' b' r' s' "s1" node made.1).0 ≡ ok o
        → let found = (find cache sub_id' u' d' b' r' s' "s1" node made.1).1 in
          (find cache "n1" 1 2 3 4 5 "s1" found.0 found.1).0 ≡ ok again
          → (o ≡ some (new "s1" "http://up" sub_id' u' d' b' r' s')) × (again ≡ o))
unfolding create fresh
create-found_example =
    create-found cache cache-IsCache "n1" 1 2 3 4 5 "s1" "http://up" empty_node [] fresh refl

-- The cache with the events that it was given.
abbrev Cluster : Type 0
Cluster = Cache × List RaftSchemaEvent

abbrev cluster : RaftClient Cluster
cluster = record {
  lock = λ id (w, sent). (some (ok tt), (w, sent));
  drop_lock = λ id w. w;
  get = λ id (w, sent). (ok (lookup id w), (w, sent));
  put = λ id data' (w, sent). (ok tt, (insert id data' w, sent));
  delete = λ id (w, sent). (ok tt, (remove id w, sent));
  notify = λ event (w, sent). (ok tt, (w, event ∷ sent));
}

unfoldable cluster-IsCache : IsCache cluster
cluster-IsCache = record {
  stored = λ id w. lookup id w.0;
  get-stored = λ id w. refl;
  get-ok = λ id w d h. sym (ok-same (lookup id w.0) d h);
  put-ok = λ id d w h. lookup-insert id id d w.0 ∙ if_same id _ _;
  put-err = λ id d w. inl (lookup-insert id id d w.0 ∙ if_same id _ _);
  delete-stored = λ id w. inl (lookup-remove id id w.0 ∙ if_same id _ _);
  delete-ok = λ id w h. lookup-remove id id w.0 ∙ if_same id _ _;
  notify-stored = λ id event w. refl;
  drop_lock-stored = λ id w. refl;
}

abbrev cluster-IsNotified : IsNotified cluster
cluster-IsNotified = record {
  sent = λ w. w.1;
  notify-ok = λ event w h. refl;
  delete-sent = λ id w. refl;
}

abbrev wide : Cluster
wide = (world, [])

closes_known : (close cluster fresh wide).0 ≡ ok tt
unfolding close
closes_known = refl

close-gone_example :
    ((node : RaftManager ℕ ℕ ℕ ℕ ℕ) (sub_id : String) (u d b r s : ℕ) (o : Option Example)
      → (find cluster sub_id u d b r s "s1" node (close cluster fresh wide).1).0 ≡ ok o
      → o ≡ none)
    × (event : RaftSchemaEvent) × ((close cluster fresh wide).1.1 ≡ event ∷ [])
    × ((node : RaftManager ℕ ℕ ℕ ℕ ℕ)
        → let after = on_event (some event) node in
          (after.0 ≡ Option.map cancel (lookup "s1" node.sessions))
          × (lookup "s1" after.1.sessions ≡ none)
          × ((other : String)
              → "s1" ≢ other
              → lookup other after.1.sessions ≡ lookup other node.sessions))
unfolding fresh new
close-gone_example = close-gone cluster cluster-IsCache cluster-IsNotified fresh wide closes_known

abbrev cancelled : Example
unfolding fresh new
cancelled = record fresh { cancelled = true }

cancelled_is_known : lookup "s1" with_cancelled.sessions ≡ some cancelled
unfolding lookup cancelled fresh new
cancelled_is_known = refl

cancelled-found_example :
    ((sub_id : String) (u d b r s : ℕ) (o : Option Example)
      → (find cache sub_id u d b r s "s1" with_cancelled world).0 ≡ ok o
      → o ≡ some cancelled)
    × ((woken : List Example)
        → (guard_upstream cancelled woken ≡ (err (closed_error cancelled), cancelled))
          × (guard_downstream cancelled woken ≡ (err (closed_error cancelled), cancelled))
          × (guard_bypass_downstream cancelled woken ≡ (err (closed_error cancelled), cancelled))
          × (stop cache cancelled woken world ≡ (err (closed_error cancelled), (cancelled, world))))
    × (start cache cancelled world ≡ (err (closed_error cancelled), (cancelled, world)))
    × (is_started cancelled ≡ false)
    × (guard_close cancelled ≡ (ok tt, cancelled))
unfolding cancelled fresh new cache-IsCache lookup
cancelled-found_example =
    cancelled-found cache cache-IsCache cancelled with_cancelled known_data world refl
      cancelled_is_known stored_known
