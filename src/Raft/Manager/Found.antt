-- ===== src/Raft/Manager/Found.antt =====
-- What the nodes of a cluster find of a session that one of them creates, closes or cancels.
use overlay_mcp.Base.{
  String, if_same, ◌≡◌, refl, sym, ap, ap₂, ◌∙◌, Option, none, some, lookup, insert, lookup-insert,
  Result, ok, err,
}
use overlay_mcp.Core.Errors.{Error, Url}
use overlay_mcp.Raft.Schema.{RaftSessionData, RaftClient, from_hiqlite}
use overlay_mcp.Raft.Session.{RaftSession, new}
use overlay_mcp.Raft.Election.{IsCache, from_hiqlite-ok, from_hiqlite-world}
use overlay_mcp.Raft.Manager.{
  RaftManager, create, insert_session, or_insert, find_local, find_stored, find,
}

abbrev data_of : String → Url → RaftSessionData
data_of id url = record { session_id = id; upstream_url = url; main_subsession_id = none }

module _ {W R S U D B : Type 0} (client : RaftClient W) (laws : IsCache client) where
  open laws use {stored}

  module _ (sub_id : String) (u : U) (d : D) (b : B) (r : R) (s : S) where
    find_stored-eq :
        (id : String) (self : RaftManager R S U D B) (x : Result (Option RaftSessionData) Error)
        (v : W) (o : Option (RaftSession R S U D B))
        → (find_stored client sub_id u d b r s id self (x, v)).0 ≡ ok o
        → (found : Option RaftSessionData) × (x ≡ ok found)
    find_stored-eq id self (ok found) v o h = (found, refl)
    find_stored-eq id self (err e) v o h = absurd (cc)

    -- What `find` does where hiqlite answers.
    find-eq :
        (id : String) (self : RaftManager R S U D B) (w : W) (o : Option (RaftSession R S U D B))
        → (find client sub_id u d b r s id self w).0 ≡ ok o
        → find client sub_id u d b r s id self w
          ≡ find_stored client sub_id u d b r s id self (ok (stored id w), (client.get id w).1)
    unfolding find
    find-eq id self w o h =
        let p = from_hiqlite (client.get id w) in
        let (found, e) = find_stored-eq id self p.0 p.1 o h in
        let same : found ≡ stored id w =
          laws.get-ok id w found (from_hiqlite-ok (client.get id w) found e) in
        ap (find_stored client sub_id u d b r s id self)
          (ap₂ (λ a c. (a, c)) (e ∙ ap ok same) (from_hiqlite-world (client.get id w)))

    -- A node that has the session under the id finds it, whatever became of it there.
    pub find-known :
        (id : String) (self : RaftManager R S U D B) (w : W) (o : Option (RaftSession R S U D B))
        (session : RaftSession R S U D B) (data' : RaftSessionData)
        → lookup id self.sessions ≡ some session
        → stored id w ≡ some data'
        → (find client sub_id u d b r s id self w).0 ≡ ok o
        → o ≡ some session
    find-known id self w o session data' p q h =
        let e = find-eq id self w o h in
        let f = find_stored client sub_id u d b r s id self in
        let there : (find client sub_id u d b r s id self w).0 ≡ ok (some session) =
          ap (λ x. x.0) e
          ∙ ap (λ x. (f (ok x, (client.get id w).1)).0) q
          ∙ ap (λ x. (find_local client sub_id u d b r s data' x self (client.get id w).1).0) p in
        cc

    -- A node that has no session under the id makes one, of the stored data, and keeps it.
    pub find-unknown :
        (id : String) (self : RaftManager R S U D B) (w : W) (o : Option (RaftSession R S U D B))
        (data' : RaftSessionData)
        → lookup id self.sessions ≡ none
        → stored id w ≡ some data'
        → data'.session_id ≡ id
        → (find client sub_id u d b r s id self w).0 ≡ ok o
        → let made = new id data'.upstream_url sub_id u d b r s in
          (o ≡ some made)
          × (lookup id (find client sub_id u d b r s id self w).1.0.sessions ≡ some made)
          × (stored id (find client sub_id u d b r s id self w).1.1 ≡ some data')
    unfolding new
    find-unknown id self w o data' p q n h =
        let w₁ = (client.get id w).1 in
        let made = new id data'.upstream_url sub_id u d b r s in
        let from : String → RaftSession R S U D B =
          λ i. new i data'.upstream_url sub_id u d b r s in
        let there : find client sub_id u d b r s id self w
            ≡ (ok (some made), (record self { sessions = insert id made self.sessions }, w₁)) =
          find-eq id self w o h
          ∙ ap (λ x. find_stored client sub_id u d b r s id self (ok x, w₁)) q
          ∙ ap (λ x. find_local client sub_id u d b r s data' x self w₁) p
          ∙ ap (λ i. or_insert (from i) self w₁ (lookup i self.sessions)) n
          ∙ ap (or_insert made self w₁) p in
        let here : (find client sub_id u d b r s id self w).0 ≡ ok (some made) =
          ap (λ x. x.0) there in
        (
          cc,
          ap (λ x. lookup id x.1.0.sessions) there
              ∙ lookup-insert id id made self.sessions
              ∙ if_same id _ _,
          ap (λ x. stored id x.1.1) there ∙ laws.get-stored id w ∙ q,
        )

    pub find-gone :
        (id : String) (self : RaftManager R S U D B) (w : W) (o : Option (RaftSession R S U D B))
        → stored id w ≡ none
        → (find client sub_id u d b r s id self w).0 ≡ ok o
        → o ≡ none
    find-gone id self w o q h =
        let there : (find client sub_id u d b r s id self w).0 ≡ ok none =
          ap (λ x. x.0) (find-eq id self w o h)
          ∙ ap (λ x. (find_stored client sub_id u d b r s id self (ok x, (client.get id w).1)).0)
              q in
        cc

  insert_session-ok :
      (made : RaftSession R S U D B) (self : RaftManager R S U D B)
      (p : Result (Unit {0}) Error × W) (session : RaftSession R S U D B)
      → (insert_session made self p).0 ≡ ok session
      → (p.0 ≡ ok tt)
        × (session ≡ made)
        × (insert_session made self p ≡ (
          ok made,
          (record self { sessions = insert made.session_id made self.sessions }, p.1),
        ))
  insert_session-ok made self (ok tt, w) session h = (refl, cc, refl)
  insert_session-ok made self (err e, w) session h = absurd (cc)

  create-ok :
      (sub_id : String) (u : U) (d : D) (b : B) (r : R) (s : S) (id : String) (url : Url)
      (self : RaftManager R S U D B) (w : W) (session : RaftSession R S U D B)
      → (create client sub_id u d b r s id url self w).0 ≡ ok session
      → (session ≡ new id url sub_id u d b r s)
        × (lookup id (create client sub_id u d b r s id url self w).1.0.sessions ≡ some session)
        × (stored id (create client sub_id u d b r s id url self w).1.1 ≡ some (data_of id url))
  unfolding create new
  create-ok sub_id u d b r s id url self w session h =
      let made = new id url sub_id u d b r s in
      let put = client.put id (data_of id url) w in
      let (done, same, e) = insert_session-ok made self (from_hiqlite put) session h in
      (
        same,
        ap (λ x. lookup id x.1.0.sessions) e
            ∙ lookup-insert id id made self.sessions
            ∙ if_same id _ _
            ∙ ap some (sym same),
        ap (λ x. stored id x.1.1) e
            ∙ ap (stored id) (from_hiqlite-world put)
            ∙ laws.put-ok id (data_of id url) w (from_hiqlite-ok put tt done),
      )

  -- Where hiqlite keeps the laws of a cache, and once a node has created a session: each `find` that hiqlite answers
  -- finds that session under the id there; on any node that has none under it, it makes one of the same id and
  -- upstream, and the next `find` there gives this one again.
  pub create-found :
      (sub_id : String) (u : U) (d : D) (b : B) (r : R) (s : S) (id : String) (url : Url)
      (self : RaftManager R S U D B) (w : W) (session : RaftSession R S U D B)
      → (create client sub_id u d b r s id url self w).0 ≡ ok session
      → let made = (create client sub_id u d b r s id url self w).1 in
        ((sub_id' : String) (u' : U) (d' : D) (b' : B) (r' : R) (s' : S)
            (o : Option (RaftSession R S U D B))
          → (find client sub_id' u' d' b' r' s' id made.0 made.1).0 ≡ ok o
          → o ≡ some session)
        × ((node : RaftManager R S U D B) (sub_id' : String) (u' : U) (d' : D) (b' : B) (r' : R)
              (s' : S) (o again : Option (RaftSession R S U D B))
            → lookup id node.sessions ≡ none
            → (find client sub_id' u' d' b' r' s' id node made.1).0 ≡ ok o
            → let found = (find client sub_id' u' d' b' r' s' id node made.1).1 in
              (find client sub_id u d b r s id found.0 found.1).0 ≡ ok again
              → (o ≡ some (new id url sub_id' u' d' b' r' s')) × (again ≡ o))
  create-found sub_id u d b r s id url self w session h =
      let (same, here, kept) = create-ok sub_id u d b r s id url self w session h in
      let made = (create client sub_id u d b r s id url self w).1 in
      (
        λ sub_id' u' d' b' r' s' o f.
            find-known sub_id' u' d' b' r' s' id made.0 made.1 o session (data_of id url) here kept
              f,
        λ node sub_id' u' d' b' r' s' o again e f g.
            let found = (find client sub_id' u' d' b' r' s' id node made.1).1 in
            let (p, q, t) =
              find-unknown sub_id' u' d' b' r' s' id node made.1 o (data_of id url) e kept refl f in
            (
              p,
              find-known sub_id u d b r s id found.0 found.1 again
                    (new id url sub_id' u' d' b' r' s') (data_of id url) q t g
                  ∙ sym p,
            ),
      )
