-- ===== src/Standalone/Lost.antt =====
-- What becomes of a session whose relay ends, and of one whose transport fails.
use overlay_mcp.Base.{
  String, ◌≡◌, refl, sym, ap, ◌∙◌, subst, Bool, true, false, Option, none, some, Result, ok, err,
  not, if◌then◌else◌,
}
use overlay_mcp.Core.Errors.{Error, already_closed_session}
use overlay_mcp.Standalone.{
  Connection, stopped, started, Session, is_started_connection, take, restore, begin_start,
  ask_stop, end_with, new, cancel, is_started, start, finish_start, end_relay, request_stop, close,
}
use overlay_mcp.Standalone.Ends.{
  Step, starts, opens, ends, asks, closes, cancels, upstreams, downstreams, bypasses, Steps, done,
  later, EndsAt, idle, opening, running, gone, new-EndsAt,
}

module _ {R S U D B : Type 0} where
  -- The ends of a session are lost: nothing holds them, and the connection is `started`.
  abbrev pub IsLost : Session R S U D B → Type 0
  IsLost self =
      (c : Bool) × (self.connection ≡ started c) × (self.starting ≡ none) × (self.relay ≡ none)

  if-IsLost :
      (b : Bool) (x y : Result (Unit {0}) Error × Session R S U D B)
      → IsLost x.1
      → IsLost y.1
      → IsLost (if b then x else y).1
  if-IsLost true x y p q = p
  if-IsLost false x y p q = q

  moved-IsLost : (self after : Session R S U D B) → Step self after → IsLost self → IsLost after
  unfolding start take request_stop close cancel end_relay end_with
  moved-IsLost self _ starts (c, a, b, d) =
      if-IsLost self.cancelled _ (begin_start self (take self.connection)) (c, a, b, d)
        (subst (λ x. IsLost (begin_start self (take x)).1) (sym a) (c, a, b, d))
  moved-IsLost self _ (opens h r) (c, a, b, d) = absurd (cc)
  moved-IsLost self _ ends (c, a, b, d) = subst (λ x. IsLost (end_with self x)) (sym d) (c, a, b, d)
  moved-IsLost self _ asks (c, a, b, d) =
      if-IsLost self.cancelled _ (ask_stop self self.connection) (c, a, b, d)
        (subst (λ x. IsLost (ask_stop self x).1) (sym a) (true, refl, b, d))
  moved-IsLost self _ closes p = if-IsLost self.cancelled _ (ok tt, cancel self) p p
  moved-IsLost self _ cancels p = p
  moved-IsLost self _ (upstreams _) p = p
  moved-IsLost self _ (downstreams _) p = p
  moved-IsLost self _ (bypasses _) p = p

  onward-IsLost : (self after : Session R S U D B) → Steps self after → IsLost self → IsLost after
  onward-IsLost self _ done p = p
  onward-IsLost self _ (later {mid} {after} w t) p =
      moved-IsLost mid after t (onward-IsLost self mid w p)

  lost-is_started : (self : Session R S U D B) → IsLost self → is_started self ≡ not self.cancelled
  unfolding is_started is_started_connection
  lost-is_started self (c, a, _, _) = go self.cancelled self.connection a
    where
      go :
          (b : Bool) (x : Connection R S)
          → x ≡ started c
          → (if b then false else is_started_connection x) ≡ not b
      go true x e = refl
      go false (stopped _ _) e = absurd (cc)
      go false (started _) e = refl

  lost-start : (self : Session R S U D B) → IsLost self → ¬ ((start self).0 ≡ ok tt)
  unfolding start take
  lost-start self (c, a, _, _) = go self.cancelled self.connection a
    where
      go :
          (b : Bool) (x : Connection R S)
          → x ≡ started c
          → ¬ (
              (if b
                then (err (already_closed_session self.session_id), self)
                else begin_start self (take x)).0
              ≡ ok tt)
      go true x e h = cc
      go false (stopped _ _) e h = cc
      go false (started _) e h = cc

  failed-IsLost :
      {P : Type 0} (r : R) (s : S) (self : Session R S U D B) (waiting : R × S) (e : Error)
      → self.starting ≡ some waiting
      → EndsAt P r s self
      → IsLost (finish_start self (err e)).1
  unfolding finish_start
  failed-IsLost r s self waiting e h (idle a b d) = absurd (cc)
  failed-IsLost r s self waiting e h (opening c a b d) = (c, a, refl, d)
  failed-IsLost r s self waiting e h (running c a b d) = absurd (cc)
  failed-IsLost r s self waiting e h (gone _ c a b d) = absurd (cc)

  -- Where the transport of a `start` fails, the session is lost for good: whatever happens next, no relay
  -- runs, each later `start` fails, and the session says that it is started exactly while it is not
  -- cancelled.
  pub finish_start-IsLost :
      (session_id : String) (u : U) (d : D) (b : B) (r : R) (s : S) (self after : Session R S U D B)
      (waiting : R × S) (e : Error)
      → Steps (new session_id u d b r s) self
      → self.starting ≡ some waiting
      → Steps (finish_start self (err e)).1 after
      → IsLost after × (is_started after ≡ not after.cancelled) × (¬ ((start after).0 ≡ ok tt))
  finish_start-IsLost session_id u d b r s self after waiting e w h w' =
      let lost =
        onward-IsLost _ after w'
          (failed-IsLost r s self waiting e h (new-EndsAt session_id u d b r s self w)) in
      (lost, lost-is_started after lost, lost-start after lost)

  running-end_relay :
      {P : Type 0} (r : R) (s : S) (self : Session R S U D B) (held : R × S)
      → self.relay ≡ some held
      → EndsAt P r s self
      → (end_relay self).connection ≡ stopped r s
  unfolding end_relay end_with restore
  running-end_relay r s self held h (idle a b d) = absurd (cc)
  running-end_relay r s self held h (opening c a b d) = absurd (cc)
  running-end_relay r s self held h (running c a b d) =
      subst (λ x. (end_with self x).connection ≡ stopped r s) (sym d) (ap (restore r s) a)
  running-end_relay r s self held h (gone _ c a b d) = absurd (cc)

  open_again :
      (r : R) (s : S) (self : Session R S U D B)
      → self.connection ≡ stopped r s
      → self.cancelled ≡ false
      → (is_started self ≡ false)
        × ((start self).0 ≡ ok tt)
        × ((start self).1.starting ≡ some (r, s))
  unfolding is_started is_started_connection start take
  open_again r s self p h = (simp (h, p) refl, simp (h, p) refl, simp (h, p) refl)

  end_relay-cancelled : (self : Session R S U D B) → (end_relay self).cancelled ≡ self.cancelled
  unfolding end_relay end_with
  end_relay-cancelled self = go self.relay
    where
      go : (o : Option (R × S)) → (end_with self o).cancelled ≡ self.cancelled
      go none = refl
      go (some _) = refl

  -- Once the relay of a session that is not closed ends, the session is not started, and it can be started
  -- again, on the two channel ends that it was made with.
  pub end_relay-start :
      (session_id : String) (u : U) (d : D) (b : B) (r : R) (s : S) (self : Session R S U D B)
      (held : R × S)
      → Steps (new session_id u d b r s) self
      → self.relay ≡ some held
      → self.cancelled ≡ false
      → (is_started (end_relay self) ≡ false)
        × ((start (end_relay self)).0 ≡ ok tt)
        × ((start (end_relay self)).1.starting ≡ some (r, s))
  end_relay-start session_id u d b r s self held w h e =
      open_again r s (end_relay self)
        (running-end_relay r s self held h (new-EndsAt session_id u d b r s self w))
        (end_relay-cancelled self ∙ e)
