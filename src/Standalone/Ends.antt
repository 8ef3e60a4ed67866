-- ===== src/Standalone/Ends.antt =====
-- Where the two channel ends of a session are, over every interleaving of its operations and tasks.
use overlay_mcp.Base.{
  String, ◌≡◌, refl, ap, subst, sym, Bool, true, false, none, some, Result, ok, err, ◌⊎◌, inl, inr,
  if◌then◌else◌,
}
use overlay_mcp.Core.Errors.{Error}
use overlay_mcp.Standalone.{
  stopped, started, Slot, Session, take, restore, new, put_upstream, put_downstream, put_bypass,
  begin_start, ask_stop, end_with, cancel, start, finish_start, end_relay, request_stop, close,
}

module _ {R S U D B : Type 0} where
  -- One step of a caller, of a waiting `start`, of the relay task, or of what cancels the session.
  pub data Step (self : Session R S U D B) : Session R S U D B → Type 0 where
    starts : Step self (start self).1
    opens :
        {waiting : R × S}
        → self.starting ≡ some waiting
        → (r : Result (Unit {0}) Error) → Step self (finish_start self r).1
    ends : Step self (end_relay self)
    asks : Step self (request_stop self).1
    closes : Step self (close self).1
    cancels : Step self (cancel self)
    upstreams : (slot : Slot U) → Step self (put_upstream slot self)
    downstreams : (slot : Slot D) → Step self (put_downstream slot self)
    bypasses : (slot : Slot B) → Step self (put_bypass slot self)

  pub data Steps (self : Session R S U D B) : Session R S U D B → Type 0 where
    done : Steps self self
    later : {mid after : Session R S U D B} → Steps self mid → Step mid after → Steps self after

  -- The step in which a `start` that waits learns that its transport has failed.
  abbrev pub IsFailure : {self after : Session R S U D B} → Step self after → Type 0
  IsFailure starts = ⊥
  IsFailure (opens _ (ok _)) = ⊥
  IsFailure (opens _ (err _)) = Unit
  IsFailure ends = ⊥
  IsFailure asks = ⊥
  IsFailure closes = ⊥
  IsFailure cancels = ⊥
  IsFailure (upstreams _) = ⊥
  IsFailure (downstreams _) = ⊥
  IsFailure (bypasses _) = ⊥

  -- A transport has failed in one of the steps.
  abbrev pub HasFailed : {self after : Session R S U D B} → Steps self after → Type 0
  HasFailed done = ⊥
  HasFailed (later w t) = HasFailed w ⊎ IsFailure t

  -- The ends are in the connection, with a `start` that waits, or with the relay; or they are lost, which
  -- needs `P`. At most one of these has them.
  pub data EndsAt (P : Type 0) (r : R) (s : S) (self : Session R S U D B) : Type 0 where
    idle :
        self.connection ≡ stopped r s → self.starting ≡ none → self.relay ≡ none → EndsAt P r s self
    opening :
        (c : Bool)
        → self.connection ≡ started c
        → self.starting ≡ some (r, s)
        → self.relay ≡ none
        → EndsAt P r s self
    running :
        (c : Bool)
        → self.connection ≡ started c
        → self.starting ≡ none
        → self.relay ≡ some (r, s)
        → EndsAt P r s self
    gone :
        P
        → (c : Bool) → self.connection ≡ started c
        → self.starting ≡ none
        → self.relay ≡ none
        → EndsAt P r s self

module _ {R S U D B P : Type 0} where
  if-EndsAt :
      (r : R) (s : S) (b : Bool) (x y : Result (Unit {0}) Error × Session R S U D B)
      → EndsAt P r s x.1
      → EndsAt P r s y.1
      → EndsAt P r s (if b then x else y).1
  if-EndsAt r s true x y p q = p
  if-EndsAt r s false x y p q = q

  start-EndsAt :
      (r : R) (s : S) (self : Session R S U D B) → EndsAt P r s self → EndsAt P r s (start self).1
  unfolding start take
  start-EndsAt r s self p =
      if-EndsAt r s self.cancelled _ (begin_start self (take self.connection)) p (begun p)
    where
      begun : EndsAt P r s self → EndsAt P r s (begin_start self (take self.connection)).1
      begun (idle a b d) =
          subst (λ c. EndsAt P r s (begin_start self (take c)).1) (sym a)
            (opening false refl refl d)
      begun (opening c a b d) =
          subst (λ c. EndsAt P r s (begin_start self (take c)).1) (sym a) (opening c a b d)
      begun (running c a b d) =
          subst (λ c. EndsAt P r s (begin_start self (take c)).1) (sym a) (running c a b d)
      begun (gone l c a b d) =
          subst (λ c. EndsAt P r s (begin_start self (take c)).1) (sym a) (gone l c a b d)

  request_stop-EndsAt :
      (r : R) (s : S) (self : Session R S U D B)
      → EndsAt P r s self
      → EndsAt P r s (request_stop self).1
  unfolding request_stop
  request_stop-EndsAt r s self p =
      if-EndsAt r s self.cancelled _ (ask_stop self self.connection) p (asked p)
    where
      asked : EndsAt P r s self → EndsAt P r s (ask_stop self self.connection).1
      asked (idle a b d) = subst (λ c. EndsAt P r s (ask_stop self c).1) (sym a) (idle a b d)
      asked (opening c a b d) =
          subst (λ c. EndsAt P r s (ask_stop self c).1) (sym a) (opening true refl b d)
      asked (running c a b d) =
          subst (λ c. EndsAt P r s (ask_stop self c).1) (sym a) (running true refl b d)
      asked (gone l c a b d) =
          subst (λ c. EndsAt P r s (ask_stop self c).1) (sym a) (gone l true refl b d)

  finish_start-EndsAt :
      (r : R) (s : S) (self : Session R S U D B) (waiting : R × S)
      (result : Result (Unit {0}) Error)
      → (h : self.starting ≡ some waiting) → (IsFailure {self = self} (opens h result) → P)
      → EndsAt P r s self
      → EndsAt P r s (finish_start self result).1
  unfolding finish_start
  finish_start-EndsAt r s self waiting result h f (idle a b d) = absurd (cc)
  finish_start-EndsAt r s self waiting (ok _) h f (opening c a b d) = running c a refl b
  finish_start-EndsAt r s self waiting (err e) h f (opening c a b d) = gone (f tt) c a refl d
  finish_start-EndsAt r s self waiting result h f (running c a b d) = absurd (cc)
  finish_start-EndsAt r s self waiting result h f (gone l c a b d) = absurd (cc)

  end_relay-EndsAt :
      (r : R) (s : S) (self : Session R S U D B) → EndsAt P r s self → EndsAt P r s (end_relay self)
  unfolding end_relay end_with restore
  end_relay-EndsAt r s self (idle a b d) =
      subst (λ x. EndsAt P r s (end_with self x)) (sym d) (idle a b d)
  end_relay-EndsAt r s self (opening c a b d) =
      subst (λ x. EndsAt P r s (end_with self x)) (sym d) (opening c a b d)
  end_relay-EndsAt r s self (running c a b d) =
      subst (λ x. EndsAt P r s (end_with self x)) (sym d) (idle (ap (restore r s) a) b refl)
  end_relay-EndsAt r s self (gone l c a b d) =
      subst (λ x. EndsAt P r s (end_with self x)) (sym d) (gone l c a b d)

  -- What leaves the connection, the waiting `start` and the relay alone.
  keep-EndsAt :
      (r : R) (s : S) (self after : Session R S U D B)
      → after.connection ≡ self.connection
      → after.starting ≡ self.starting
      → after.relay ≡ self.relay
      → EndsAt P r s self
      → EndsAt P r s after
  keep-EndsAt r s self after p q t (idle a b d) = idle (cc) (cc) (cc)
  keep-EndsAt r s self after p q t (opening c a b d) = opening c (cc) (cc) (cc)
  keep-EndsAt r s self after p q t (running c a b d) = running c (cc) (cc) (cc)
  keep-EndsAt r s self after p q t (gone l c a b d) = gone l c (cc) (cc) (cc)

  close-EndsAt :
      (r : R) (s : S) (self : Session R S U D B) → EndsAt P r s self → EndsAt P r s (close self).1
  unfolding close cancel
  close-EndsAt r s self p =
      if-EndsAt r s self.cancelled _ (ok tt, cancel self) p
        (keep-EndsAt r s self _ refl refl refl p)

  step-EndsAt :
      (r : R) (s : S) (self after : Session R S U D B)
      → (t : Step self after) → (IsFailure t → P)
      → EndsAt P r s self
      → EndsAt P r s after
  unfolding cancel
  step-EndsAt r s self _ starts f p = start-EndsAt r s self p
  step-EndsAt r s self _ (opens h result) f p = finish_start-EndsAt r s self _ result h f p
  step-EndsAt r s self _ ends f p = end_relay-EndsAt r s self p
  step-EndsAt r s self _ asks f p = request_stop-EndsAt r s self p
  step-EndsAt r s self _ closes f p = close-EndsAt r s self p
  step-EndsAt r s self _ cancels f p = keep-EndsAt r s self _ refl refl refl p
  step-EndsAt r s self _ (upstreams _) f p = keep-EndsAt r s self _ refl refl refl p
  step-EndsAt r s self _ (downstreams _) f p = keep-EndsAt r s self _ refl refl refl p
  step-EndsAt r s self _ (bypasses _) f p = keep-EndsAt r s self _ refl refl refl p

  pub steps-EndsAt :
      (r : R) (s : S) (self after : Session R S U D B)
      → (w : Steps self after) → (HasFailed w → P)
      → EndsAt P r s self
      → EndsAt P r s after
  steps-EndsAt r s self _ done f p = p
  steps-EndsAt r s self _ (later {mid} {after} w t) f p =
      step-EndsAt r s mid after t (λ x. f (inr x)) (steps-EndsAt r s self mid w (λ x. f (inl x)) p)

module _ {R S U D B : Type 0} where
  -- Over any steps of a new session, its two channel ends are in the connection, with one `start` that
  -- waits, or with one relay: never in two places, and no other ends take their place. They are lost only
  -- if the transport of a `start` has failed in one of these steps.
  pub new-EndsAt :
      (session_id : String) (u : U) (d : D) (b : B) (r : R) (s : S) (after : Session R S U D B)
      (w : Steps (new session_id u d b r s) after)
      → EndsAt (HasFailed w) r s after
  unfolding new
  new-EndsAt session_id u d b r s after w =
      steps-EndsAt r s (new session_id u d b r s) after w (λ x. x) (idle refl refl refl)
