-- ===== src/Raft/Simulation/Runs.antt =====
-- Every run of a raft session is, step by step, a run of the standalone session with its channels.
use overlay_mcp.Base.{
  String, ◌≡◌, refl, ap, ◌∙◌, subst, Option, none, some, List, [], ◌∷◌, ◌++◌, Any, Result, ok, err,
}
use overlay_mcp.Core.Errors.{Error, Url}
use overlay_mcp.Standalone
use overlay_mcp.Standalone.{Session, Connection, begin_start}
use overlay_mcp.Standalone.Ends as Standalone_steps
use overlay_mcp.Standalone.Ends.{EndsAt}
use overlay_mcp.Standalone.Replay
use overlay_mcp.Standalone.Replay.{Act, IsFailed, opened, replay, replay-append, replay-EndsAt}
use overlay_mcp.Raft.Session.{
  RaftSession, RaftSessionConnection, stopped, started, Role, restore, new, cancel, run_main,
  finish_main_session, end_with, end_relay,
}
use overlay_mcp.Raft.Cluster.{start, request_stop, elect, resign}
use overlay_mcp.Raft.Simulation.{
  ends_of, as_connection, as_standalone, Step, starts, opens, ends, asks, cancels, upstreams,
  downstreams, bypasses, Steps, done, later, Simulated, OfStep, OfSteps, start_as-Simulated,
  stop_as-Simulated,
}

module _ {R S : Type 0} where
  ends-run_main : (o : Option (R × S)) → o ≡ ends_of (run_main o)
  ends-run_main none = refl
  ends-run_main (some _) = refl

  restore_same :
      (r : R) (s : S) (c : RaftSessionConnection R S)
      → Standalone.restore r s (as_connection c) ≡ as_connection (restore r s c)
  unfolding Standalone.restore restore
  restore_same r s (stopped _ _) = refl
  restore_same r s (started _) = refl

module _ {R S U D B : Type 0} where
  finish_same :
      (self : RaftSession R S U D B) (r : Result (Unit {0}) Error)
      → (Standalone.finish_start (as_standalone self) r).1
        ≡ as_standalone (finish_main_session self r).1
  unfolding Standalone.finish_start finish_main_session
  finish_same self (ok _) =
      ap (λ o. record (as_standalone self) { starting = none; relay = o })
        (ends-run_main self.starting)
  finish_same self (err _) = refl

  end_same :
      (self : RaftSession R S U D B) (o : Option (Role × (R × S)))
      → Standalone.end_with (as_standalone self) (ends_of o) ≡ as_standalone (end_with self o)
  unfolding Standalone.end_with end_with
  end_same self none = refl
  end_same self (some (role, (r, s))) =
      ap (λ c. record (as_standalone self) { connection = c; relay = none })
        (restore_same r s self.channels.connection)

  finish_replayed :
      (self : RaftSession R S U D B) (result : Result (Unit {0}) Error) (waiting : R × S)
      (o : Option (R × S))
      → o ≡ some waiting
      → opened result o (as_standalone self)
        ≡ (Standalone.finish_start (as_standalone self) result).1
  finish_replayed self result waiting none h = absurd (cc)
  finish_replayed self result waiting (some _) h = refl

  moved-Simulated :
      {P : Type 0} (self after : RaftSession R S U D B) (r : R) (s : S) (t : Step self after)
      → EndsAt P r s (as_standalone self)
      → Simulated (OfStep t) self after
  unfolding start request_stop end_relay cancel Standalone.end_relay Standalone.cancel
  moved-Simulated self _ r s (starts client w) e =
      start_as-Simulated client self r s self.cancelled
        (elect client self.session_id self.subsession_id w) w e
  moved-Simulated self _ r s (opens {waiting} h result) e = (
    Replay.opens result ∷ [],
    refl,
    finish_replayed self result waiting self.starting h ∙ finish_same self result,
  )
  moved-Simulated self _ r s ends e = (Replay.ends ∷ [], refl, end_same self self.relay)
  moved-Simulated self _ r s (asks client w) e =
      stop_as-Simulated client self self.cancelled
        (resign client self.session_id self.subsession_id w) w refl
  moved-Simulated self _ r s cancels e = (Replay.cancels ∷ [], refl, refl)
  moved-Simulated self _ r s (upstreams slot) e = (Replay.upstreams slot ∷ [], refl, refl)
  moved-Simulated self _ r s (downstreams slot) e = (Replay.downstreams slot ∷ [], refl, refl)
  moved-Simulated self _ r s (bypasses slot) e = (Replay.bypasses slot ∷ [], refl, refl)

  onward-Simulated :
      (self after : RaftSession R S U D B) (r : R) (s : S) (v : Steps self after)
      → EndsAt Unit r s (as_standalone self)
      → Simulated (OfSteps v) self after
  onward-Simulated self _ r s done e = ([], refl, refl)
  onward-Simulated self _ r s (later {mid} {after} v t) e =
      let (before, p, m) = onward-Simulated self mid r s v e in
      let (last, q, n) =
        moved-Simulated mid after r s t
          (subst (EndsAt Unit r s) m (replay-EndsAt r s before (as_standalone self) (λ _. tt) e)) in
      (
        before ++ last,
        (before, last, refl, p, q),
        replay-append before last (as_standalone self) ∙ ap (replay last) m ∙ n,
      )

  -- Whatever the cluster answers, every run of a new raft session is, step by step, the run of a script by
  -- the new standalone session with the same channels: each step is the standalone operation or task of its
  -- name, a `start` or `stop` with an error is none, and one `start` of a sub session is a `start` whose
  -- transport is good. The standalone session ends as the raft one; so the channel ends of this one, too, are
  -- in the connection, with one `start` that waits, or with one relay, and they are lost only if the
  -- script has a failed transport.
  pub new-Simulated :
      (session_id : String) (upstream_url : Url) (subsession_id : String) (u : U) (d : D) (b : B)
      (r : R) (s : S) (after : RaftSession R S U D B)
      (v : Steps (new session_id upstream_url subsession_id u d b r s) after)
      → (script : List (Act U D B)) × OfSteps v script
        × (replay script (Standalone.new session_id u d b r s) ≡ as_standalone after)
        × EndsAt (Any IsFailed script) r s (as_standalone after)
  unfolding new Standalone.new
  new-Simulated session_id upstream_url subsession_id u d b r s after v =
      let (script, p, m) =
        onward-Simulated (new session_id upstream_url subsession_id u d b r s) after r s v
          (Standalone_steps.idle refl refl refl) in
      (
        script,
        p,
        m,
        subst (EndsAt (Any IsFailed script) r s) m (
            replay-EndsAt r s script (Standalone.new session_id u d b r s) (λ x. x)
              (Standalone_steps.idle refl refl refl)),
      )
