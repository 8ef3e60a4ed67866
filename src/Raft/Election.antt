-- ===== src/Raft/Election.antt =====
-- Who is elected as the main subsession of a session, and what `start` runs then.
use overlay_mcp.Base.{
  String, ◌==◌, eq_iff, ◌≡◌, ◌≢◌, refl, sym, ap, ◌∙◌, ◌⊎◌, Bool, true, false, arith, Option, none,
  some, Result, ok, err, ok_or-eq-ok, if◌then◌else◌,
}
use overlay_mcp.Core.Errors.{Error}
use overlay_mcp.Core.Action.{Action, pure, ◌>>◌, dropping}
use overlay_mcp.Core.Runs.{>>=-ok}
use overlay_mcp.Raft.Schema.{RaftSessionData, RaftSchemaEvent, RaftClient, from_hiqlite, locked}
use overlay_mcp.Raft.Session.{
  RaftSession, stopped, started, sub, take, closed_error, put_connection, take_for,
  wait_for_transport, run_sub, run_role, start_main_session, start_sub_session,
}
use overlay_mcp.Raft.Cluster.{
  is_main, is_elected, claim_main, claim, known, read_data, put_data, elect_locked, elect, start_as,
  start, After,
}

-- What hiqlite documents of its cache, where no other node comes in between: `stored` is what it holds. A
-- write that fails may have been done or not.
pub record IsCache {W : Type 0} (client : RaftClient W) : Type 0 where
  pub stored : String → W → Option RaftSessionData
  pub get-stored : (id : String) (w : W) → stored id (client.get id w).1 ≡ stored id w
  pub get-ok :
      (id : String) (w : W) (d : Option RaftSessionData)
      → (client.get id w).0 ≡ ok d
      → d ≡ stored id w
  pub put-ok :
      (id : String) (d : RaftSessionData) (w : W)
      → (client.put id d w).0 ≡ ok tt
      → stored id (client.put id d w).1 ≡ some d
  pub put-err :
      (id : String) (d : RaftSessionData) (w : W)
      → (stored id (client.put id d w).1 ≡ some d) ⊎ (stored id (client.put id d w).1 ≡ stored id w)
  pub delete-stored :
      (id : String) (w : W)
      → (stored id (client.delete id w).1 ≡ none) ⊎ (stored id (client.delete id w).1 ≡ stored id w)
  pub delete-ok :
      (id : String) (w : W)
      → (client.delete id w).0 ≡ ok tt
      → stored id (client.delete id w).1 ≡ none
  pub notify-stored :
      (id : String) (event : RaftSchemaEvent) (w : W)
      → stored id (client.notify event w).1 ≡ stored id w
  pub drop_lock-stored : (id : String) (w : W) → stored id (client.drop_lock id w) ≡ stored id w

pub from_hiqlite-ok :
    {W A : Type 0} (p : Result A String × W) (a : A) → (from_hiqlite p).0 ≡ ok a → p.0 ≡ ok a
from_hiqlite-ok (ok b, w) a h = cc
from_hiqlite-ok (err e, w) a h = absurd (cc)

pub from_hiqlite-world : {W A : Type 0} (p : Result A String × W) → (from_hiqlite p).1 ≡ p.1
from_hiqlite-world (ok b, w) = refl
from_hiqlite-world (err e, w) = refl

module _ {W : Type 0} (client : RaftClient W) (laws : IsCache client) where
  open laws use {stored}

  pub read_data-ok :
      (id : String) (w : W) (d : RaftSessionData)
      → (read_data client id w).0 ≡ ok d
      → (stored id w ≡ some d) × (stored id (read_data client id w).1 ≡ some d)
  unfolding read_data
  read_data-ok id w d h =
      let (o, p, q, e) = >>=-ok (λ w. from_hiqlite (client.get id w)) (known client id) w d h in
      let found : o ≡ some d = ok_or-eq-ok o _ q in
      let same : some d ≡ stored id w =
        sym found ∙ laws.get-ok id w o (from_hiqlite-ok (client.get id w) o p) in
      (
        sym same,
        ap (λ r. stored id r.1) e
            ∙ ap (stored id) (from_hiqlite-world (client.get id w))
            ∙ laws.get-stored id w
            ∙ sym same,
      )

  -- Under the lock, a subsession claims the place of the main one where it is free.
  elect_locked-ok :
      (id subsession_id : String) (w : W) (d : RaftSessionData)
      → (elect_locked client id subsession_id w).0 ≡ ok d
      → (old : RaftSessionData) × (stored id w ≡ some old)
        × (claim subsession_id old ≡ d)
        × (stored id (elect_locked client id subsession_id w).1 ≡ some d)
  unfolding elect_locked
  elect_locked-ok id subsession_id w d h =
      let rest : RaftSessionData → Action W RaftSessionData =
        λ x. put_data client id (claim subsession_id x) >> pure (claim subsession_id x) in
      let (old, p, q, e) = >>=-ok (read_data client id) rest w d h in
      let w₁ = (read_data client id w).1 in
      let c = claim subsession_id old in
      let (u, p', q', e') = >>=-ok (put_data client id c) (λ _. pure c) w₁ d q in
      let same : c ≡ d = cc in
      let written : stored id (client.put id c w₁).1 ≡ some c =
        laws.put-ok id c w₁ (from_hiqlite-ok (client.put id c w₁) tt p') in
      (
        old,
        (read_data-ok id w old p).0,
        same,
        ap (λ r. stored id r.1) e
            ∙ ap (λ r. stored id r.1) e'
            ∙ ap (stored id) (from_hiqlite-world (client.put id c w₁))
            ∙ written
            ∙ ap some same,
      )

  -- A successful election leaves a main subsession in the cluster, the one that it answers.
  pub elect-ok :
      (id subsession_id : String) (w : W) (d : RaftSessionData)
      → (elect client id subsession_id w).0 ≡ ok d
      → (stored id (elect client id subsession_id w).1 ≡ some d)
        × ((chosen : String) × (d.main_subsession_id ≡ some chosen))
  unfolding elect claim
  elect-ok id subsession_id w d h =
      let body = dropping (client.drop_lock id) (elect_locked client id subsession_id) in
      let (u, p, q, e) = >>=-ok (λ w. locked (client.lock id w)) (λ _. body) w d h in
      let w₁ = (locked (client.lock id w)).1 in
      let (old, _, same, kept) = elect_locked-ok id subsession_id w₁ d q in
      (
        ap (λ r. stored id r.1) e
            ∙ laws.drop_lock-stored id (elect_locked client id subsession_id w₁).1
            ∙ kept,
        claimed old.main_subsession_id (ap (λ x. x.main_subsession_id) same),
      )
    where
      claimed :
          (o : Option String)
          → claim_main subsession_id o ≡ d.main_subsession_id
          → (chosen : String) × (d.main_subsession_id ≡ some chosen)
      claimed none h = (subsession_id, sym h)
      claimed (some other) h = (other, sym h)

  module _ {R S U D B : Type 0} (self : RaftSession R S U D B) (r : R) (s : S) where
    sub_session :
        self.cancelled ≡ false
        → self.channels.connection ≡ stopped r s
        → start_sub_session self ≡ (ok tt, run_sub (r, s) (put_connection (started false) self))
    unfolding start_sub_session take
    sub_session c p =
        ap
          (λ b.
            if b
            then (err (closed_error self), self)
            else take_for run_sub self (take self.channels.connection))
          c
        ∙ ap (λ x. take_for run_sub self (take x)) p

    main_session :
        self.cancelled ≡ false
        → self.channels.connection ≡ stopped r s
        → start_main_session self
          ≡ (ok tt, wait_for_transport (r, s) (put_connection (started false) self))
    unfolding start_main_session take
    main_session c p =
        ap
          (λ b.
            if b
            then (err (closed_error self), self)
            else take_for wait_for_transport self (take self.channels.connection))
          c
        ∙ ap (λ x. take_for wait_for_transport self (take x)) p

    -- A main subsession is in the cluster; the session runs a sub session where it is this one, and opens a
    -- transport where it is another.
    abbrev RunsRole : After W R S U D B → Type 0
    RunsRole (_, (after, w)) =
        (d : RaftSessionData) × (chosen : String) × (stored self.session_id w ≡ some d)
        × (d.main_subsession_id ≡ some chosen)
        × (chosen ≡ self.subsession_id
            → (after.relay ≡ some (sub, (r, s))) × (after.starting ≡ self.starting))
        × (chosen ≢ self.subsession_id
            → (after.starting ≡ some (r, s)) × (after.relay ≡ self.relay))

    roles :
        (b : Bool) (x : Result RaftSessionData Error × W) (w : W)
        → self.cancelled ≡ b
        → self.channels.connection ≡ stopped r s
        → ((d : RaftSessionData)
            → x.0 ≡ ok d
            → (stored self.session_id x.1 ≡ some d)
              × ((chosen : String) × (d.main_subsession_id ≡ some chosen)))
        → (if b then (err (closed_error self), (self, w)) else start_as client self x).0 ≡ ok tt
        → RunsRole (if b then (err (closed_error self), (self, w)) else start_as client self x)
    unfolding run_role is_elected
    roles true x w c p f h = absurd (cc)
    roles false (err e, _) w c p f h = absurd (cc)
    roles false (ok d, w') w c p f h =
        let (kept, (chosen, m)) = f d refl in
        let ran : is_elected self.subsession_id d ≡ (chosen == self.subsession_id) =
          ap (is_main self.subsession_id) m in
        (
          d,
          chosen,
          kept,
          m,
          λ e.
              let same : run_role (is_elected self.subsession_id d) self
                  ≡ (ok tt, run_sub (r, s) (put_connection (started false) self)) =
                ap (λ b. run_role b self) (ran ∙ (eq_iff chosen self.subsession_id).1 e)
                ∙ sub_session c p in
              (ap (λ y. y.1.relay) same, ap (λ y. y.1.starting) same),
          λ n.
              let same : run_role (is_elected self.subsession_id d) self
                  ≡ (ok tt, wait_for_transport (r, s) (put_connection (started false) self)) =
                ap (λ b. run_role b self) (ran ∙ differ chosen self.subsession_id n)
                ∙ main_session c p in
              (ap (λ y. y.1.starting) same, ap (λ y. y.1.relay) same),
        )
      where
        differ : (a b : String) → a ≢ b → (a == b) ≡ false
        differ a b n = ground (arith, eq_iff a b)

    -- Where hiqlite keeps the laws of a cache and a stopped session starts, the cluster has a main subsession.
    -- If it is this one, this node only runs the relay of a sub session, and opens no transport; if it is
    -- another one, this node opens a transport of its own.
    pub start-role :
        (w : W)
        → self.channels.connection ≡ stopped r s
        → (start client self w).0 ≡ ok tt
        → (d : RaftSessionData) × (chosen : String) × (stored self.session_id
              (start client self w).1.1
            ≡ some d)
          × (d.main_subsession_id ≡ some chosen)
          × (chosen ≡ self.subsession_id
              → ((start client self w).1.0.relay ≡ some (sub, (r, s)))
                × ((start client self w).1.0.starting ≡ self.starting))
          × (chosen ≢ self.subsession_id
              → ((start client self w).1.0.starting ≡ some (r, s))
                × ((start client self w).1.0.relay ≡ self.relay))
    unfolding start
    start-role w p h =
        roles self.cancelled (elect client self.session_id self.subsession_id w) w refl p
          (elect-ok self.session_id self.subsession_id w) h
