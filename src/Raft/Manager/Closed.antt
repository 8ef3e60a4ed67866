-- ===== src/Raft/Manager/Closed.antt =====
-- What a close, and a cancelled session, leave behind on the nodes of a cluster.
use overlay_mcp.Base.{
  String, if_same, if_distinct, ◌≡◌, ◌≢◌, refl, ap, ◌∙◌, Bool, true, false, Option, none, some,
  List, ◌∷◌, lookup, lookup-remove, ok, err, if◌then◌else◌,
}
use mathlib.Core.Option
use overlay_mcp.Core.Action.{Action}
use overlay_mcp.Core.Runs.{>>=-ok}
use overlay_mcp.Raft.Schema.{
  RaftSessionData, RaftClient, RaftSchemaEvent, delete_session, from_hiqlite,
}
use overlay_mcp.Raft.Session.{
  RaftSession, cancel, closed_error, guard_upstream, guard_downstream, guard_bypass_downstream,
  guard_close, is_started,
}
use overlay_mcp.Raft.Cluster.{start, stop, request_stop, await_stop, close}
use overlay_mcp.Raft.Election.{IsCache, from_hiqlite-ok, from_hiqlite-world}
use overlay_mcp.Raft.Manager.{RaftManager, on_event, drop_session, find}
use overlay_mcp.Raft.Manager.Found.{find-known, find-gone}

refused : {A X : Type 0} (b : Bool) (x y : X) (f : X → A) → b ≡ true → f (if b then x else y) ≡ f x
refused true x y f h = refl
refused false x y f h = absurd (cc)

-- The events that hiqlite has taken to tell the nodes, the last one first: `notify` adds its event where it
-- succeeds, and `delete` adds none.
pub record IsNotified {W : Type 0} (client : RaftClient W) : Type 0 where
  pub sent : W → List RaftSchemaEvent
  pub notify-ok :
      (event : RaftSchemaEvent) (w : W)
      → (client.notify event w).0 ≡ ok tt
      → sent (client.notify event w).1 ≡ event ∷ sent w
  pub delete-sent : (id : String) (w : W) → sent (client.delete id w).1 ≡ sent w

module _ {W R S U D B : Type 0} (client : RaftClient W) (laws : IsCache client) where
  open laws use {stored}

  drop_session-gone :
      (id : String) (node : RaftManager R S U D B) (o : Option (RaftSession R S U D B))
      → lookup id node.sessions ≡ o
      → lookup id (drop_session o id node).1.sessions ≡ none
  drop_session-gone id node none h = h
  drop_session-gone id node (some _) h = lookup-remove id id node.sessions ∙ if_same id _ _

  drop_session-spares :
      (id other : String) (node : RaftManager R S U D B) (o : Option (RaftSession R S U D B))
      → id ≢ other
      → lookup other (drop_session o id node).1.sessions ≡ lookup other node.sessions
  drop_session-spares id other node none n = refl
  drop_session-spares id other node (some _) n =
      lookup-remove id other node.sessions ∙ if_distinct id other n _ _

  close-ok :
      (session : RaftSession R S U D B) (w : W)
      → (close client session w).0 ≡ ok tt
      → stored session.session_id (close client session w).1 ≡ none
  unfolding close
  close-ok session w h =
      let id = session.session_id in
      let deletes : Action W (Unit {0}) = λ w. from_hiqlite (client.delete id w) in
      let notifies : Action W (Unit {0}) =
        λ w. from_hiqlite (client.notify (delete_session id) w) in
      let (_, p, q, e) = >>=-ok deletes (λ _. notifies) w tt h in
      let w₁ = (deletes w).1 in
      ap (λ x. stored id x.1) e
      ∙ ap (stored id) (from_hiqlite-world (client.notify (delete_session id) w₁))
      ∙ laws.notify-stored id (delete_session id) w₁
      ∙ ap (stored id) (from_hiqlite-world (client.delete id w))
      ∙ laws.delete-ok id w (from_hiqlite-ok (client.delete id w) tt p)

  close-sent :
      (notified : IsNotified client) (session : RaftSession R S U D B) (w : W)
      → (close client session w).0 ≡ ok tt
      → notified.sent (close client session w).1
        ≡ delete_session session.session_id ∷ notified.sent w
  unfolding close
  close-sent notified session w h =
      let id = session.session_id in
      let deletes : Action W (Unit {0}) = λ w. from_hiqlite (client.delete id w) in
      let notifies : Action W (Unit {0}) =
        λ w. from_hiqlite (client.notify (delete_session id) w) in
      let (_, _, q, e) = >>=-ok deletes (λ _. notifies) w tt h in
      let w₁ = (deletes w).1 in
      ap (λ x. notified.sent x.1) e
      ∙ ap notified.sent (from_hiqlite-world (client.notify (delete_session id) w₁))
      ∙ notified.notify-ok (delete_session id) w₁
          (from_hiqlite-ok (client.notify (delete_session id) w₁) tt q)
      ∙ ap (λ v. delete_session id ∷ notified.sent v) (from_hiqlite-world (client.delete id w))
      ∙ ap (◌∷◌ (delete_session id)) (notified.delete-sent id w)

  -- Where hiqlite keeps the laws of a cache and of its events, and once a session was closed on one node with success,
  -- each `find` of its id that hiqlite answers gives none, on every node. The close has sent one event to the
  -- nodes, and on each node this event takes the session out and cancels it, where there is one, and leaves
  -- the others.
  pub close-gone :
      (notified : IsNotified client) (session : RaftSession R S U D B) (w : W)
      → (close client session w).0 ≡ ok tt
      → let id = session.session_id in
        ((node : RaftManager R S U D B) (sub_id : String) (u : U) (d : D) (b : B) (r : R) (s : S)
            (o : Option (RaftSession R S U D B))
          → (find client sub_id u d b r s id node (close client session w).1).0 ≡ ok o
          → o ≡ none)
        × (event : RaftSchemaEvent) × (notified.sent (close client session w).1
            ≡ event ∷ notified.sent w)
        × ((node : RaftManager R S U D B)
            → let after = on_event (some event) node in
              (after.0 ≡ Option.map cancel (lookup id node.sessions))
              × (lookup id after.1.sessions ≡ none)
              × ((other : String)
                  → id ≢ other
                  → lookup other after.1.sessions ≡ lookup other node.sessions))
  unfolding on_event
  close-gone notified session w h =
      let id = session.session_id in
      (
        λ node sub_id u d b r s o f.
            find-gone client laws sub_id u d b r s id node (close client session w).1 o
              (close-ok session w h) f,
        delete_session id,
        close-sent notified session w h,
        λ node. (
          dropped node (lookup id node.sessions),
          drop_session-gone id node (lookup id node.sessions) refl,
          λ other n. drop_session-spares id other node (lookup id node.sessions) n,
        ),
      )
    where
      dropped :
          (node : RaftManager R S U D B) (o : Option (RaftSession R S U D B))
          → (drop_session o session.session_id node).0 ≡ Option.map cancel o
      dropped node none = refl
      dropped node (some _) = refl

  -- A session that a node has cancelled, as the drop of its close guard does, while the cluster, whose
  -- hiqlite keeps the laws of a cache, still stores it: the node finds it under its id, whenever hiqlite
  -- answers; its stream guards, `start` and `stop` refuse with `AlreadyClosedSession`, without a change to it
  -- or to the cluster, and it is not started; but its `guard_close` succeeds, as on an open session.
  pub cancelled-found :
      (self : RaftSession R S U D B) (node : RaftManager R S U D B) (data' : RaftSessionData)
      (w : W)
      → self.cancelled ≡ true
      → lookup self.session_id node.sessions ≡ some self
      → stored self.session_id w ≡ some data'
      → ((sub_id : String) (u : U) (d : D) (b : B) (r : R) (s : S)
            (o : Option (RaftSession R S U D B))
          → (find client sub_id u d b r s self.session_id node w).0 ≡ ok o
          → o ≡ some self)
        × ((woken : List (RaftSession R S U D B))
            → (guard_upstream self woken ≡ (err (closed_error self), self))
              × (guard_downstream self woken ≡ (err (closed_error self), self))
              × (guard_bypass_downstream self woken ≡ (err (closed_error self), self))
              × (stop client self woken w ≡ (err (closed_error self), (self, w))))
        × (start client self w ≡ (err (closed_error self), (self, w)))
        × (is_started self ≡ false)
        × (guard_close self ≡ (ok tt, self))
  unfolding guard_upstream guard_downstream guard_bypass_downstream start stop request_stop
      is_started guard_close
  cancelled-found self node data' w c p q = (
    λ sub_id u d b r s o f.
        find-known client laws sub_id u d b r s self.session_id node w o self data' p q f,
    λ woken. (
      refused self.cancelled _ _ (λ x. x) c,
      refused self.cancelled _ _ (λ x. x) c,
      refused self.cancelled _ _ (λ x. x) c,
      refused self.cancelled _ _ (await_stop woken) c,
    ),
    refused self.cancelled _ _ (λ x. x) c,
    refused self.cancelled _ _ (λ x. x) c,
    refl,
  )
