-- ===== src/Raft/Alone/Runs.antt =====
-- What a node does with a session that it has for itself.
use overlay_mcp.Base.{
  String, ◌≡◌, refl, sym, ap, ap₂, ◌∙◌, subst, inl, inr, Bool, true, false, Option, none, some,
  Result, ok, err, if◌then◌else◌,
}
use overlay_mcp.Core.Errors.{Error, Url}
use overlay_mcp.Core.Action.{Action, ◌>>◌}
use overlay_mcp.Core.Runs.{>>=-keeps}
use overlay_mcp.Raft.Schema.{RaftSessionData, RaftClient, delete_session, from_hiqlite}
use overlay_mcp.Raft.Session.{
  RaftSession, RaftSessionConnection, stopped, started, Role, main, new, take, cancel, closed_error,
  take_for, run_sub, run_role, start_sub_session, finish_main_session, end_with, end_relay,
}
use overlay_mcp.Raft.Cluster.{
  is_elected, elect, resign, start_as, start, ask_stop, stop_as, request_stop, close,
}
use overlay_mcp.Raft.Election.{IsCache, from_hiqlite-world}
use overlay_mcp.Raft.Alone.{Own, Owned, moved, elect-Owned, resign-Owned, elected_alone}

module _ {W : Type 0} (client : RaftClient W) (laws : IsCache client)
    (alone : (id : String) (w : W) → laws.stored id (client.lock id w).1 ≡ laws.stored id w)
    (id sub_id : String) where
  open laws use {stored}

  module _ {R S U D B : Type 0} where
    -- The session is this one, no `start` waits for a transport, and no relay of a main session runs.
    pub data SubOnly (self : RaftSession R S U D B) : Type 0 where
      sub_only :
          self.session_id ≡ id
          → self.subsession_id ≡ sub_id
          → self.starting ≡ none
          → ((ends : R × S) → ¬ (self.relay ≡ some (main, ends)))
          → SubOnly self

    -- What the node does with its session, one operation or task at a time.
    pub data Step (self : RaftSession R S U D B) (w : W) : RaftSession R S U D B → W → Type 0 where
      starts : Step self w (start client self w).1.0 (start client self w).1.1
      asks : Step self w (request_stop client self w).1.0 (request_stop client self w).1.1
      opens :
          {waiting : R × S}
          → self.starting ≡ some waiting
          → (r : Result (Unit {0}) Error) → Step self w (finish_main_session self r).1 w
      ends : Step self w (end_relay self) w
      cancels : Step self w (cancel self) w
      closes : Step self w self (close client self w).1

    pub data Steps (self : RaftSession R S U D B) (w : W) : RaftSession R S U D B → W → Type 0 where
      done : Steps self w self w
      later :
          {mid after : RaftSession R S U D B} {v u : W}
          → Steps self w mid v
          → Step mid v after u
          → Steps self w after u

    sub-SubOnly :
        (self : RaftSession R S U D B) (b : Bool) (c : RaftSessionConnection R S)
        → SubOnly self
        → SubOnly (if b then (err (closed_error self), self) else take_for run_sub self (take c)).1
    unfolding take
    sub-SubOnly self true c h = h
    sub-SubOnly self false (started _) h = h
    sub-SubOnly self false (stopped r s) (sub_only p q a n) = sub_only p q a (λ ends e. absurd (cc))

    start_as-SubOnly :
        (self : RaftSession R S U D B) (b : Bool) (x : Result RaftSessionData Error × W) (w : W)
        → ((d : RaftSessionData) → x.0 ≡ ok d → is_elected self.subsession_id d ≡ true)
        → SubOnly self
        → SubOnly (if b then (err (closed_error self), (self, w)) else start_as client self x).1.0
    unfolding run_role start_sub_session
    start_as-SubOnly self true x w f h = h
    start_as-SubOnly self false (err _, _) w f h = h
    start_as-SubOnly self false (ok d, _) w f h =
        subst (λ b. SubOnly (run_role b self).1) (sym (f d refl))
          (sub-SubOnly self self.cancelled self.channels.connection h)

    start_as-Owned :
        (self : RaftSession R S U D B) (b : Bool) (x : Result RaftSessionData Error × W) (w : W)
        → Owned client laws alone id sub_id w
        → Owned client laws alone id sub_id x.1
        → Owned client laws alone id sub_id
            (if b then (err (closed_error self), (self, w)) else start_as client self x).1.1
    start_as-Owned self true x w h k = h
    start_as-Owned self false (err _, _) w h k = k
    start_as-Owned self false (ok _, _) w h k = k

    start-both :
        (self : RaftSession R S U D B) (w : W)
        → SubOnly self
        → Owned client laws alone id sub_id w
        → SubOnly (start client self w).1.0
          × Owned client laws alone id sub_id (start client self w).1.1
    unfolding start
    start-both self w (sub_only p q a n) h =
        let x = elect client self.session_id self.subsession_id w in
        let same : elect client id sub_id w ≡ x = ap₂ (λ i j. elect client i j w) (sym p) (sym q) in
        let elected : (d : RaftSessionData) → x.0 ≡ ok d → is_elected self.subsession_id d ≡ true =
          λ d e.
            subst (λ j. is_elected j d ≡ true) (sym q)
              (elected_alone client laws alone id sub_id w d (ap (λ y. y.0) same ∙ e) h) in
        (
          start_as-SubOnly self self.cancelled x w elected (sub_only p q a n),
          start_as-Owned self self.cancelled x w h (
              subst (λ y. Owned client laws alone id sub_id y.1) same
                (elect-Owned client laws alone id sub_id w h)),
        )

    ask-SubOnly :
        (self : RaftSession R S U D B) (c : RaftSessionConnection R S)
        → SubOnly self
        → SubOnly (ask_stop self c).1
    ask-SubOnly self (stopped _ _) h = h
    ask-SubOnly self (started _) (sub_only p q a n) = sub_only p q a n

    stop_as-both :
        (self : RaftSession R S U D B) (b : Bool) (x : Result (Unit {0}) Error × W) (w : W)
        → SubOnly self
        → Owned client laws alone id sub_id w
        → Owned client laws alone id sub_id x.1
        → SubOnly (if b then (err (closed_error self), (self, w)) else stop_as client self x).1.0
          × Owned client laws alone id sub_id
              (if b then (err (closed_error self), (self, w)) else stop_as client self x).1.1
    stop_as-both self true x w s h k = (s, h)
    stop_as-both self false (err _, _) w s h k = (s, k)
    stop_as-both self false (ok _, _) w s h k = (ask-SubOnly self self.channels.connection s, k)

    stop-both :
        (self : RaftSession R S U D B) (w : W)
        → SubOnly self
        → Owned client laws alone id sub_id w
        → SubOnly (request_stop client self w).1.0
          × Owned client laws alone id sub_id (request_stop client self w).1.1
    unfolding request_stop
    stop-both self w (sub_only p q a n) h =
        let same = ap₂ (λ i j. resign client i j w) (sym p) (sym q) in
        stop_as-both self self.cancelled (resign client self.session_id self.subsession_id w) w
          (sub_only p q a n) h
          (subst (λ y. Owned client laws alone id sub_id y.1) same
            (resign-Owned client laws alone id sub_id w h))

    end-SubOnly :
        (self : RaftSession R S U D B) (o : Option (Role × (R × S)))
        → SubOnly self
        → SubOnly (end_with self o)
    unfolding end_with
    end-SubOnly self none h = h
    end-SubOnly self (some _) (sub_only p q a n) = sub_only p q a (λ ends e. absurd (cc))

    close-Owned :
        (self : RaftSession R S U D B) (w : W)
        → self.session_id ≡ id
        → Owned client laws alone id sub_id w
        → Owned client laws alone id sub_id (close client self w).1
    unfolding close
    close-Owned self w p h =
        subst (λ i. Owned client laws alone id sub_id (gone i).1) (sym p) (closed)
      where
        tell : String → Action W (Unit {0})
        tell i w = from_hiqlite (client.notify (delete_session i) w)

        gone : String → Result (Unit {0}) Error × W
        gone i = ((λ w. from_hiqlite (client.delete i w)) >> tell i) w

        deleted : Owned client laws alone id sub_id (from_hiqlite (client.delete id w)).1
        deleted =
            let e = ap (stored id) (from_hiqlite-world (client.delete id w)) in
            elim (laws.delete-stored id w) [
              | inl o ↦ subst (Own sub_id) (sym (e ∙ o)) tt
              | inr o ↦ moved client laws alone id sub_id w _ (e ∙ o) h
            ]

        closed : Owned client laws alone id sub_id (gone id).1
        closed =
            >>=-keeps (Owned client laws alone id sub_id) (λ w. from_hiqlite (client.delete id w))
              (λ _. tell id) w deleted
              (λ a _ q.
                moved client laws alone id sub_id _ _
                  (ap (stored id) (from_hiqlite-world (client.notify (delete_session id) _))
                    ∙ laws.notify-stored id _ _)
                  q)

    moved-both :
        (self : RaftSession R S U D B) (w : W) (after : RaftSession R S U D B) (v : W)
        → Step self w after v
        → SubOnly self
        → Owned client laws alone id sub_id w
        → SubOnly after × Owned client laws alone id sub_id v
    unfolding end_relay cancel
    moved-both self w _ _ starts s h = start-both self w s h
    moved-both self w _ _ asks s h = stop-both self w s h
    moved-both self w _ _ (opens e r) (sub_only p q a n) h = absurd (cc)
    moved-both self w _ _ ends s h = (end-SubOnly self self.relay s, h)
    moved-both self w _ _ cancels (sub_only p q a n) h = (sub_only p q a n, h)
    moved-both self w _ _ closes (sub_only p q a n) h = (sub_only p q a n, close-Owned self w p h)

    onward-both :
        (self : RaftSession R S U D B) (w : W) (after : RaftSession R S U D B) (v : W)
        → Steps self w after v
        → SubOnly self
        → Owned client laws alone id sub_id w
        → SubOnly after × Owned client laws alone id sub_id v
    onward-both self w _ _ done s h = (s, h)
    onward-both self w _ _ (later {mid} {after} {v} {u} t x) s h =
        let (s', h') = onward-both self w mid v t s h in moved-both mid v after u x s' h'

    -- Where hiqlite keeps the laws of a cache, and nothing changes the cache while a node waits for a lock, as in
    -- a cluster of one node, that node never opens a transport for a session: over any of its operations on a
    -- new session that is stored with no main subsession, no `start` waits for a transport, and no relay of a
    -- main session runs.
    pub new-SubOnly :
        (upstream_url : Url) (u : U) (d : D) (b : B) (r : R) (s : S) (data' : RaftSessionData)
        (w : W) (after : RaftSession R S U D B) (v : W)
        → stored id w ≡ some data'
        → data'.main_subsession_id ≡ none
        → Steps (new id upstream_url sub_id u d b r s) w after v
        → (after.starting ≡ none) × ((ends : R × S) → ¬ (after.relay ≡ some (main, ends)))
    unfolding new
    new-SubOnly upstream_url u d b r s data' w after v p q t =
        let fresh : SubOnly (new id upstream_url sub_id u d b r s) =
          sub_only refl refl refl (λ ends e. absurd (cc)) in
        unpack after (
          (onward-both (new id upstream_url sub_id u d b r s) w after v t fresh
            (subst (Own sub_id) (sym p) (inl q))).0)
      where
        unpack :
            (x : RaftSession R S U D B)
            → SubOnly x
            → (x.starting ≡ none) × ((ends : R × S) → ¬ (x.relay ≡ some (main, ends)))
        unpack x (sub_only p q a n) = (a, n)
