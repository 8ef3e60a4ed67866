-- ===== src/Standalone/Stop.antt =====
-- What a session answers once it is closed, once its transport has failed, and when it is stopped.
use overlay_mcp.Base.{
  ◌≡◌, refl, ap, ◌∙◌, subst, ◌↔◌, inl, inr, Bool, true, false, Bool-cases, Option, none, some, List,
  [], ◌∷◌, Any, here, there, Result, ok, err, if◌then◌else◌,
}
use overlay_mcp.Core.Errors.{Error, already_closed_session}
use overlay_mcp.Standalone.{
  Connection, stopped, started, Session, is_started_connection, take, begin_start, ask_stop,
  end_with, cancel, is_started, start, finish_start, end_relay, request_stop, wait_stopped,
  await_stop, stop, close, guard_upstream, guard_downstream, guard_bypass_downstream, guard_close,
  guard_stream,
}
use overlay_mcp.Standalone.Ends.{
  Step, starts, opens, ends, asks, closes, cancels, upstreams, downstreams, bypasses, Steps, done,
  later,
}

module _ {R S U D B : Type 0} where
  if-cancelled :
      (b c : Bool) (x y : Result (Unit {0}) Error × Session R S U D B)
      → b ≡ c
      → (c ≡ true → x.1.cancelled ≡ true)
      → (c ≡ true → y.1.cancelled ≡ true)
      → c ≡ true
      → (if b then x else y).1.cancelled ≡ true
  if-cancelled true c x y e p q h = p h
  if-cancelled false c x y e p q h = q h

  begin_start-cancelled :
      (self : Session R S U D B) (c : Connection R S)
      → (begin_start self (take c)).1.cancelled ≡ self.cancelled
  unfolding take
  begin_start-cancelled self (stopped r s) = refl
  begin_start-cancelled self (started c) = refl

  ask_stop-cancelled :
      (self : Session R S U D B) (c : Connection R S)
      → (ask_stop self c).1.cancelled ≡ self.cancelled
  ask_stop-cancelled self (stopped r s) = refl
  ask_stop-cancelled self (started c) = refl

  end_with-cancelled :
      (self : Session R S U D B) (o : Option (R × S)) → (end_with self o).cancelled ≡ self.cancelled
  unfolding end_with
  end_with-cancelled self none = refl
  end_with-cancelled self (some _) = refl

  moved-cancelled :
      (self after : Session R S U D B)
      → Step self after
      → self.cancelled ≡ true
      → after.cancelled ≡ true
  unfolding start request_stop close cancel finish_start end_relay
  moved-cancelled self _ starts h =
      if-cancelled self.cancelled _ _ (begin_start self (take self.connection)) refl (λ e. e)
        (λ e. begin_start-cancelled self self.connection ∙ e) h
  moved-cancelled self _ (opens e (ok _)) h = h
  moved-cancelled self _ (opens e (err _)) h = h
  moved-cancelled self _ ends h = end_with-cancelled self self.relay ∙ h
  moved-cancelled self _ asks h =
      if-cancelled self.cancelled _ _ (ask_stop self self.connection) refl (λ e. e)
        (λ e. ask_stop-cancelled self self.connection ∙ e) h
  moved-cancelled self _ closes h =
      if-cancelled self.cancelled _ _ (ok tt, cancel self) refl (λ e. e) (λ e. refl) h
  moved-cancelled self _ cancels h = refl
  moved-cancelled self _ (upstreams _) h = h
  moved-cancelled self _ (downstreams _) h = h
  moved-cancelled self _ (bypasses _) h = h

  onward-cancelled :
      (self after : Session R S U D B)
      → Steps self after
      → self.cancelled ≡ true
      → after.cancelled ≡ true
  onward-cancelled self _ done h = h
  onward-cancelled self _ (later {mid} {after} w t) h =
      moved-cancelled mid after t (onward-cancelled self mid w h)

  abbrev closed : Session R S U D B → Error
  closed self = already_closed_session self.session_id

  -- The session refuses each of its operations as closed, and none of them changes it.
  abbrev pub IsClosed : Session R S U D B → Type 0
  IsClosed self =
      (start self ≡ (err (closed self), self))
      × ((woken : List (Session R S U D B)) → stop self woken ≡ (err (closed self), self))
      × (close self ≡ (err (closed self), self))
      × (guard_close self ≡ (err (closed self), self))
      × ((woken : List (Session R S U D B)) → guard_upstream self woken ≡ (err (closed self), self))
      × ((polls : List (Session R S U D B))
          → guard_downstream self polls ≡ (err (closed self), self))
      × ((polls : List (Session R S U D B))
          → guard_bypass_downstream self polls ≡ (err (closed self), self))
      × (is_started self ≡ false)

  request_stop-cancelled :
      (self : Session R S U D B)
      → self.cancelled ≡ true
      → request_stop self ≡ (err (closed self), self)
  unfolding request_stop
  request_stop-cancelled self h = simp (h) refl

  cancelled-IsClosed : (self : Session R S U D B) → self.cancelled ≡ true → IsClosed self
  unfolding start stop request_stop close guard_close guard_upstream guard_downstream
      guard_bypass_downstream guard_stream is_started
  cancelled-IsClosed self h = (
    simp (h) refl,
    λ w. ap (await_stop w) (request_stop-cancelled self h),
    simp (h) refl,
    simp (h) refl,
    λ w. simp (h) refl,
    λ w. simp (h) refl,
    λ w. simp (h) refl,
    simp (h) refl,
  )

  -- Once a session is cancelled, by `close`, by the drop of a close guard or by the server's end, it stays
  -- closed: whatever happens, each of its operations fails as closed and changes nothing.
  pub cancel-IsClosed :
      (self after : Session R S U D B) → Steps (cancel self) after → IsClosed after
  unfolding cancel
  cancel-IsClosed self after w =
      cancelled-IsClosed after (onward-cancelled (cancel self) after w refl)

  skip :
      (now : Session R S U D B) (woken : List (Session R S U D B))
      → is_started_connection now.connection ≡ true
      → Any (λ now. is_started_connection now.connection ≡ false) (now ∷ woken)
      → Any (λ now. is_started_connection now.connection ≡ false) woken
  skip now woken e (here f) = absurd (cc)
  skip now woken e (there h) = h

  wait_stopped-ok :
      (woken : List (Session R S U D B))
      → (wait_stopped woken ≡ ok tt)
        ↔ Any (λ now. is_started_connection now.connection ≡ false) woken
  unfolding wait_stopped
  wait_stopped-ok [] = (λ h. absurd (cc), λ h. elim h [ ])
  wait_stopped-ok (now ∷ woken) = elim (Bool-cases (is_started_connection now.connection)) [
    | inl e ↦ (
      λ h. there (
          (wait_stopped-ok woken).0
            (subst (λ b. (if b then wait_stopped woken else ok tt) ≡ ok tt) e h)),
      λ h. simp (e) ((wait_stopped-ok woken).1 (skip now woken e h)),
    )
    | inr e ↦ (λ h. here e, λ h. simp (e) refl)
  ]

  -- `stop` succeeds exactly on a started session that is not closed, where a notification comes in time
  -- after which the connection is stopped: without a notification it never does.
  pub stop-ok :
      (self : Session R S U D B) (woken : List (Session R S U D B))
      → ((stop self woken).0 ≡ ok tt) ↔ (
          (is_started self ≡ true)
          × Any (λ now. is_started_connection now.connection ≡ false) woken)
  unfolding stop request_stop is_started is_started_connection
  stop-ok self woken = go self.cancelled self.connection
    where
      go :
          (b : Bool) (c : Connection R S)
          → ((await_stop woken (if b then (err (closed self), self) else ask_stop self c)).0
              ≡ ok tt)
            ↔ (((if b then false else is_started_connection c) ≡ true)
                × Any (λ now. is_started_connection now.connection ≡ false) woken)
      go true c = (λ h. absurd (cc), λ (p, q). absurd (cc))
      go false (stopped r s) = (λ h. absurd (cc), λ (p, q). absurd (cc))
      go false (started c) =
          (λ h. (refl, (wait_stopped-ok woken).0 h), λ (p, q). (wait_stopped-ok woken).1 q)
