-- ===== src/Raft/Simulation.antt =====
-- A raft session does with its channels what a standalone session does with its own: its `start` and `stop`.
pub mod Runs
use overlay_mcp.Base.{
  String, ◌≡◌, refl, sym, ap, ◌∙◌, subst, Bool, true, false, Option, none, some, List, [], ◌∷◌,
  ◌++◌, ◌⊎◌, inl, inr, map, Result, ok, err, if◌then◌else◌,
}
use overlay_mcp.Core.Errors.{Error, Url}
use overlay_mcp.Core.Slots.{Slot, lone, guard_loop}
use overlay_mcp.Standalone
use overlay_mcp.Standalone.{Session, Connection, begin_start}
use overlay_mcp.Standalone.Ends as Standalone_steps
use overlay_mcp.Standalone.Ends.{EndsAt}
use overlay_mcp.Standalone.Replay
use overlay_mcp.Standalone.Replay.{Act, opened, replay}
use overlay_mcp.Raft.Schema.{RaftSessionData, RaftClient}
use overlay_mcp.Raft.Session.{
  RaftSession, RaftSessionConnection, stopped, started, Role, main, sub, is_started_connection,
  take, restore, new, put_upstream, put_downstream, put_bypass, put_connection, cancel, is_started,
  take_for, wait_for_transport, run_sub, run_main, start_main_session, finish_main_session,
  start_sub_session, end_with, end_relay, run_role, closed_error, guard_upstream, guard_downstream,
  guard_bypass_downstream,
}
use overlay_mcp.Raft.Cluster.{
  After, start, start_as, request_stop, stop_as, ask_stop, elect, resign, is_elected,
}

module _ {R S : Type 0} where
  abbrev pub as_connection : RaftSessionConnection R S → Connection R S
  as_connection (stopped r s) = Standalone.stopped r s
  as_connection (started c) = Standalone.started c

  abbrev pub ends_of : Option (Role × (R × S)) → Option (R × S)
  ends_of none = none
  ends_of (some (_, ends)) = some ends

module _ {U D B : Type 0} where
  -- What the standalone session does where the raft one starts: nothing on an error; on success the start
  -- of a main session, or that of a sub session, which has its transport at once.
  abbrev pub OfStart : Result (Unit {0}) Error → List (Act U D B) → Type 0
  OfStart (err _) script = script ≡ []
  OfStart (ok _) script =
      (script ≡ Replay.starts ∷ []) ⊎ (script ≡ Replay.starts ∷ Replay.opens (ok tt) ∷ [])

  abbrev pub OfStop : Result (Unit {0}) Error → List (Act U D B) → Type 0
  OfStop (err _) script = script ≡ []
  OfStop (ok _) script = script ≡ Replay.asks ∷ []

module _ {R S U D B : Type 0} where
  -- The standalone session with the same channels and tasks.
  abbrev pub as_standalone : RaftSession R S U D B → Session R S U D B
  as_standalone self = record {
    session_id = self.session_id;
    upstream = self.channels.upstream;
    downstream = self.channels.downstream;
    bypass_downstream = self.channels.bypass_downstream;
    connection = as_connection self.channels.connection;
    starting = self.starting;
    relay = ends_of self.relay;
    cancelled = self.cancelled;
  }

  -- One step of a raft session, whatever the cluster and the state that it is in.
  pub data Step (self : RaftSession R S U D B) : RaftSession R S U D B → Type 1 where
    starts : {W : Type 0} (client : RaftClient W) (w : W) → Step self (start client self w).1.0
    opens :
        {waiting : R × S}
        → self.starting ≡ some waiting
        → (r : Result (Unit {0}) Error) → Step self (finish_main_session self r).1
    ends : Step self (end_relay self)
    asks : {W : Type 0} (client : RaftClient W) (w : W) → Step self (request_stop client self w).1.0
    cancels : Step self (cancel self)
    upstreams : (slot : Slot U) → Step self (put_upstream slot self)
    downstreams : (slot : Slot D) → Step self (put_downstream slot self)
    bypasses : (slot : Slot B) → Step self (put_bypass slot self)

  pub data Steps (self : RaftSession R S U D B) : RaftSession R S U D B → Type 1 where
    done : Steps self self
    later : {mid after : RaftSession R S U D B} → Steps self mid → Step mid after → Steps self after

  -- The standalone script that one step of a raft session stands for.
  abbrev pub OfStep :
      {self after : RaftSession R S U D B} → Step self after → List (Act U D B) → Type 0
  OfStep {self} (starts client w) script = OfStart (start client self w).0 script
  OfStep (opens _ result) script = script ≡ Replay.opens result ∷ []
  OfStep ends script = script ≡ Replay.ends ∷ []
  OfStep {self} (asks client w) script = OfStop (request_stop client self w).0 script
  OfStep cancels script = script ≡ Replay.cancels ∷ []
  OfStep (upstreams slot) script = script ≡ Replay.upstreams slot ∷ []
  OfStep (downstreams slot) script = script ≡ Replay.downstreams slot ∷ []
  OfStep (bypasses slot) script = script ≡ Replay.bypasses slot ∷ []

  -- The script of a run is that of its steps, in their order.
  abbrev pub OfSteps :
      {self after : RaftSession R S U D B} → Steps self after → List (Act U D B) → Type 0
  OfSteps done script = script ≡ []
  OfSteps (later v t) script =
      (before : List (Act U D B)) × (last : List (Act U D B)) × (script ≡ before ++ last)
      × OfSteps v before
      × OfStep t last

  -- A script that meets `Of` takes the standalone session to that of `after`.
  abbrev pub Simulated :
      (List (Act U D B) → Type 0) → RaftSession R S U D B → RaftSession R S U D B → Type 0
  Simulated Of self after =
      (script : List (Act U D B)) × Of script
      × (replay script (as_standalone self) ≡ as_standalone after)

  began :
      (self : RaftSession R S U D B) (r : R) (s : S)
      → self.cancelled ≡ false
      → self.channels.connection ≡ stopped r s
      → (Standalone.start (as_standalone self)).1 ≡ record (as_standalone self) {
        connection = Standalone.started false;
        starting = some (r, s);
      }
  unfolding Standalone.start Standalone.take
  began self r s p q =
      let x = as_standalone self in
      ap
        (λ b.
          (if b
            then (err (Standalone.closed_error x), x)
            else begin_start x (Standalone.take (as_connection self.channels.connection))).1)
        p
      ∙ ap (λ c. (begin_start x (Standalone.take (as_connection c))).1) q

  -- A stopped session has no `start` that waits.
  idle-starting :
      {P : Type 0} (r : R) (s : S) (x : Session R S U D B) (r' : R) (s' : S)
      → EndsAt P r s x
      → x.connection ≡ Standalone.stopped r' s'
      → x.starting ≡ none
  idle-starting r s x r' s' (Standalone_steps.idle a b d) h = b
  idle-starting r s x r' s' (Standalone_steps.opening c a b d) h = absurd (cc)
  idle-starting r s x r' s' (Standalone_steps.running c a b d) h = b
  idle-starting r s x r' s' (Standalone_steps.gone _ c a b d) h = b

  -- The part that an answer of `start` makes of a session.
  abbrev Started : RaftSession R S U D B → Result (Unit {0}) Error × RaftSession R S U D B → Type 0
  Started self x = Simulated (OfStart x.0) self x.1

  main_same :
      (self : RaftSession R S U D B) (b : Bool) (c : RaftSessionConnection R S)
      → self.cancelled ≡ b
      → self.channels.connection ≡ c
      → Started self
          (if b then (err (closed_error self), self) else take_for wait_for_transport self (take c))
  unfolding take
  main_same self true c p q = ([], refl, refl)
  main_same self false (started c) p q = ([], refl, refl)
  main_same self false (stopped r s) p q = (Replay.starts ∷ [], inl refl, began self r s p q)

  -- A sub session starts as a standalone one whose transport is good at once.
  sub_same :
      {P : Type 0} (self : RaftSession R S U D B) (b : Bool) (c : RaftSessionConnection R S) (r : R)
      (s : S)
      → self.cancelled ≡ b
      → self.channels.connection ≡ c
      → EndsAt P r s (as_standalone self)
      → Started self (if b then (err (closed_error self), self) else take_for run_sub self (take c))
  unfolding take Standalone.finish_start
  sub_same self true c _ _ p q e = ([], refl, refl)
  sub_same self false (started c) _ _ p q e = ([], refl, refl)
  sub_same self false (stopped r s) r' s' p q e =
      let x = as_standalone self in
      let idle : none ≡ self.starting = sym (idle-starting r' s' x r s e (ap as_connection q)) in
      (
        Replay.starts ∷ Replay.opens (ok tt) ∷ [],
        inr refl,
        ap (λ y. opened (ok tt) y.starting y) (began self r s p q)
            ∙ ap
                (λ o. record x {
                  connection = Standalone.started false;
                  starting = o;
                  relay = some (r, s);
                })
                idle,
      )

  run_role-Started :
      {P : Type 0} (elected : Bool) (self : RaftSession R S U D B) (r : R) (s : S)
      → EndsAt P r s (as_standalone self)
      → Started self (run_role elected self)
  unfolding run_role start_main_session start_sub_session
  run_role-Started true self r s e =
      sub_same self self.cancelled self.channels.connection r s refl refl e
  run_role-Started false self r s e =
      main_same self self.cancelled self.channels.connection refl refl

  pub start_as-Simulated :
      {W P : Type 0} (client : RaftClient W) (self : RaftSession R S U D B) (r : R) (s : S)
      (b : Bool) (result : Result RaftSessionData Error × W) (w : W)
      → EndsAt P r s (as_standalone self)
      → let x : After W R S U D B =
          if b then (err (closed_error self), (self, w)) else start_as client self result in
        Simulated (OfStart x.0) self x.1.0
  start_as-Simulated client self r s true result w e = ([], refl, refl)
  start_as-Simulated client self r s false (err _, _) w e = ([], refl, refl)
  start_as-Simulated client self r s false (ok session_data, _) w e =
      run_role-Started (is_elected self.subsession_id session_data) self r s e

  asked :
      (self : RaftSession R S U D B) (c : RaftSessionConnection R S)
      → self.cancelled ≡ false
      → self.channels.connection ≡ c
      → Simulated (OfStop (ask_stop self c).0) self (ask_stop self c).1
  unfolding Standalone.request_stop
  asked self (stopped r s) p q = ([], refl, refl)
  asked self (started c) p q =
      let x = as_standalone self in
      (
        Replay.asks ∷ [],
        refl,
        ap
              (λ b.
                (if b
                  then (err (Standalone.closed_error x), x)
                  else Standalone.ask_stop x x.connection).1)
              p
            ∙ ap (λ c. (Standalone.ask_stop x (as_connection c)).1) q,
      )

  pub stop_as-Simulated :
      {W : Type 0} (client : RaftClient W) (self : RaftSession R S U D B) (b : Bool)
      (result : Result (Unit {0}) Error × W) (w : W)
      → self.cancelled ≡ b
      → let x : After W R S U D B =
          if b then (err (closed_error self), (self, w)) else stop_as client self result in
        Simulated (OfStop x.0) self x.1.0
  stop_as-Simulated client self true result w h = ([], refl, refl)
  stop_as-Simulated client self false (err _, _) w h = ([], refl, refl)
  stop_as-Simulated client self false (ok _, _) w h = asked self self.channels.connection h refl
