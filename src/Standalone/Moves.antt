-- ===== src/Standalone/Moves.antt =====
-- The steps of a session whose streams only move between their mutexes and the guards, and what the parts of
-- its operations make of it.
use overlay_mcp.Base.{
  String, ◌≡◌, refl, sym, subst, Bool, true, false, Option, none, some, List, [], ◌∷◌, All, Result,
  ok, err, if◌then◌else◌,
}
use overlay_mcp.Core.Errors.{Error}
use overlay_mcp.Core.Slots.{put_back, give_back, given}
use overlay_mcp.Standalone.{
  Connection, stopped, started, Slot, Session, take, begin_start, ask_stop, end_with, new,
  put_upstream, put_downstream, put_bypass, start, finish_start, end_relay, request_stop, close,
  cancel, take_slot, guard_loop, guard_stream, closed_error,
}
use overlay_mcp.Standalone.Ends
use overlay_mcp.Standalone.Ends.{EndsAt, HasFailed, new-EndsAt}
use overlay_mcp.Standalone.Streams.{SlotStep, gives, drops, Has, kept, step-Has}

module _ {R S U D B : Type 0} where
  pub data Move (self : Session R S U D B) : Session R S U D B → Type 0 where
    starts : Move self (start self).1
    opens :
        {waiting : R × S}
        → self.starting ≡ some waiting
        → (r : Result (Unit {0}) Error) → Move self (finish_start self r).1
    ends : Move self (end_relay self)
    asks : Move self (request_stop self).1
    closes : Move self (close self).1
    cancels : Move self (cancel self)
    upstream : {slot : Slot U} → SlotStep self.upstream slot → Move self (put_upstream slot self)
    downstream :
        {slot : Slot D} → SlotStep self.downstream slot → Move self (put_downstream slot self)
    bypass :
        {slot : Slot B} → SlotStep self.bypass_downstream slot → Move self (put_bypass slot self)

  pub data Moves (self : Session R S U D B) : Session R S U D B → Type 0 where
    stays : Moves self self
    moves : {mid after : Session R S U D B} → Moves self mid → Move mid after → Moves self after

  pub join : {a b c : Session R S U D B} → Moves a b → Moves b c → Moves a c
  join w stays = w
  join w (moves v t) = moves (join w v) t

  as-Step : {a b : Session R S U D B} → Move a b → Ends.Step a b
  as-Step starts = Ends.starts
  as-Step (opens h r) = Ends.opens h r
  as-Step ends = Ends.ends
  as-Step asks = Ends.asks
  as-Step closes = Ends.closes
  as-Step cancels = Ends.cancels
  as-Step (upstream {slot} _) = Ends.upstreams slot
  as-Step (downstream {slot} _) = Ends.downstreams slot
  as-Step (bypass {slot} _) = Ends.bypasses slot

  pub as-Steps : {a b : Session R S U D B} → Moves a b → Ends.Steps a b
  as-Steps stays = Ends.done
  as-Steps (moves v t) = Ends.later (as-Steps v) (as-Step t)

  -- The three streams stand as they stood.
  abbrev SameStreams : Session R S U D B → Session R S U D B → Type 0
  SameStreams a b =
      (b.upstream ≡ a.upstream)
      × (b.downstream ≡ a.downstream)
      × (b.bypass_downstream ≡ a.bypass_downstream)

  if-SameStreams :
      (self : Session R S U D B) (c : Bool) (x y : Result (Unit {0}) Error × Session R S U D B)
      → SameStreams self x.1
      → SameStreams self y.1
      → SameStreams self (if c then x else y).1
  if-SameStreams self true x y p q = p
  if-SameStreams self false x y p q = q

  begin_start-SameStreams :
      (self : Session R S U D B) (x : Option (R × S) × Connection R S)
      → SameStreams self (begin_start self x).1
  begin_start-SameStreams self (none, c) = (refl, refl, refl)
  begin_start-SameStreams self (some _, c) = (refl, refl, refl)

  start-SameStreams : (self : Session R S U D B) → SameStreams self (start self).1
  unfolding start
  start-SameStreams self =
      if-SameStreams self self.cancelled _ _ (refl, refl, refl)
        (begin_start-SameStreams self (take self.connection))

  finish_start-SameStreams :
      (self : Session R S U D B) (r : Result (Unit {0}) Error)
      → SameStreams self (finish_start self r).1
  unfolding finish_start
  finish_start-SameStreams self (ok _) = (refl, refl, refl)
  finish_start-SameStreams self (err e) = (refl, refl, refl)

  end_with-SameStreams :
      (self : Session R S U D B) (o : Option (R × S)) → SameStreams self (end_with self o)
  unfolding end_with
  end_with-SameStreams self none = (refl, refl, refl)
  end_with-SameStreams self (some _) = (refl, refl, refl)

  ask_stop-SameStreams :
      (self : Session R S U D B) (c : Connection R S) → SameStreams self (ask_stop self c).1
  ask_stop-SameStreams self (stopped _ _) = (refl, refl, refl)
  ask_stop-SameStreams self (started _) = (refl, refl, refl)

  -- Each stream is free or under one guard.
  abbrev pub OneUser : U → D → B → Session R S U D B → Type 0
  OneUser u d b self = Has u self.upstream × Has d self.downstream × Has b self.bypass_downstream

  same-OneUser :
      (u : U) (d : D) (b : B) (a c : Session R S U D B)
      → SameStreams a c
      → OneUser u d b a
      → OneUser u d b c
  same-OneUser u d b a c (p, q, t) (x, y, z) =
      (subst (Has u) (sym p) x, subst (Has d) (sym q) y, subst (Has b) (sym t) z)

  Move-OneUser :
      (u : U) (d : D) (b : B) (a c : Session R S U D B)
      → Move a c
      → OneUser u d b a
      → OneUser u d b c
  unfolding end_relay request_stop close cancel
  Move-OneUser u d b a _ starts h = same-OneUser u d b a (start a).1 (start-SameStreams a) h
  Move-OneUser u d b a _ (opens _ r) h =
      same-OneUser u d b a (finish_start a r).1 (finish_start-SameStreams a r) h
  Move-OneUser u d b a _ ends h =
      same-OneUser u d b a (end_relay a) (end_with-SameStreams a a.relay) h
  Move-OneUser u d b a _ asks h =
      same-OneUser u d b a (request_stop a).1
        (if-SameStreams a a.cancelled _ _ (refl, refl, refl) (ask_stop-SameStreams a a.connection))
        h
  Move-OneUser u d b a _ closes h =
      same-OneUser u d b a (close a).1
        (if-SameStreams a a.cancelled _ _ (refl, refl, refl) (refl, refl, refl)) h
  Move-OneUser u d b a _ cancels h = h
  Move-OneUser u d b a _ (upstream {slot} t) (x, y, z) = (step-Has u a.upstream slot t x, y, z)
  Move-OneUser u d b a _ (downstream {slot} t) (x, y, z) = (x, step-Has d a.downstream slot t y, z)
  Move-OneUser u d b a _ (bypass {slot} t) (x, y, z) =
      (x, y, step-Has b a.bypass_downstream slot t z)

  moves-OneUser :
      (u : U) (d : D) (b : B) (a c : Session R S U D B)
      → Moves a c
      → OneUser u d b a
      → OneUser u d b c
  moves-OneUser u d b a _ stays h = h
  moves-OneUser u d b a _ (moves {mid} {after} v t) h =
      Move-OneUser u d b mid after t (moves-OneUser u d b a mid v h)

  -- Over any moves of a new session its channel ends and its streams each have one place; the ends are lost
  -- only where one of these moves is a failed transport.
  pub moves_sound :
      (id : String) (u : U) (d : D) (b : B) (r : R) (s : S) (after : Session R S U D B)
      (w : Moves (new id u d b r s) after)
      → EndsAt (HasFailed (as-Steps w)) r s after × OneUser u d b after
  unfolding new
  moves_sound id u d b r s after w = (
    new-EndsAt id u d b r s after (as-Steps w),
    moves-OneUser u d b (new id u d b r s) after w (kept refl refl, kept refl refl, kept refl refl),
  )

  -- A guard's stream is taken at one of its looks, or at none.
  module _ {A : Type 0} (get : Session R S U D B → Slot A)
      (put : Slot A → Session R S U D B → Session R S U D B)
      (puts : (s : Session R S U D B) (slot : Slot A)
        → SlotStep (get s) slot
        → Move s (put slot s)) where
    given-Moves :
        (a s : Session R S U D B) (rest : Result A Error × Session R S U D B)
        (o : Option (A × Slot A))
        → take_slot (get s) ≡ o
        → Moves a s
        → Moves a rest.1
        → Moves a (given get put rest s o).1
    given-Moves a s rest none e p q = q
    given-Moves a s rest (some (x, slot)) e p q = moves p (puts s slot (gives e))

    guard_loop-Moves :
        (a s : Session R S U D B) (looks : List (Session R S U D B))
        → Moves a s
        → All (Moves a) looks
        → Moves a (guard_loop get put s looks).1
    unfolding guard_loop
    guard_loop-Moves a s [] p h = given-Moves a s _ (take_slot (get s)) refl p p
    guard_loop-Moves a s (next ∷ looks) p (q, h) =
        given-Moves a s _ (take_slot (get s)) refl p (guard_loop-Moves a next looks q h)

    pub guard_stream-Moves :
        (s : Session R S U D B) (looks : List (Session R S U D B))
        → All (Moves s) looks
        → Moves s (guard_stream get put s looks).1
    unfolding guard_stream
    guard_stream-Moves s looks h = split s.cancelled
      where
        split :
            (c : Bool)
            → Moves s (if c then (err (closed_error s), s) else guard_loop get put s looks).1
        split true = stays
        split false = guard_loop-Moves s s looks stays h

    pub give_back-Moves :
        (s : Session R S U D B) → put (get s) s ≡ s → Moves s (put (give_back (get s)) s)
    unfolding give_back
    give_back-Moves s e = go (get s).lent refl
      where
        go : (lent : List A) → (get s).lent ≡ lent → Moves s (put (put_back (get s) lent) s)
        go [] p = subst (Moves s) (sym e) stays
        go (a ∷ lent) p = moves stays (puts s _ (drops [] lent p))
