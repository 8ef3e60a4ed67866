-- ===== src/Raft/Alone.antt =====
-- The cluster's data of a session that one node has for itself.
pub mod Runs
use overlay_mcp.Base.{
  String, ◌==◌, eq_iff, ◌≡◌, refl, sym, ap, ap₂, ◌∙◌, subst, ◌⊎◌, inl, inr, Bool, true, false,
  arith, Option, none, some, Result, ok, err, ok_or, if◌then◌else◌,
}
use overlay_mcp.Core.Errors.{Error}
use overlay_mcp.Core.Action.{Action, continue, pure, lift, ◌>>=◌, ◌>>◌, dropping}
use overlay_mcp.Core.Runs.{>>=-keeps}
use overlay_mcp.Raft.Schema.{RaftSessionData, RaftClient, delete_session, from_hiqlite, locked}
use overlay_mcp.Raft.Session.{
  RaftSession, RaftSessionConnection, stopped, started, Role, main, sub, take, cancel, closed_error,
  take_for, run_sub, run_role, start_sub_session, finish_main_session, end_with, end_relay,
}
use overlay_mcp.Raft.Cluster.{
  is_main, is_elected, claim_main, claim, known, read_data, put_data, elect_locked, with_lock,
  elect, resign_as, resign_locked, resign, start_as, start, ask_stop, stop_as, request_stop, close,
}
use overlay_mcp.Raft.Election.{IsCache, from_hiqlite-world, read_data-ok, elect-ok}

-- The session has no main subsession but this one.
abbrev pub Own : (subsession_id : String) → Option RaftSessionData → Type 0
Own subsession_id none = Unit
Own subsession_id (some d) =
    (d.main_subsession_id ≡ none) ⊎ (d.main_subsession_id ≡ some subsession_id)

module _ {W : Type 0} (client : RaftClient W) (laws : IsCache client)
    (alone : (id : String) (w : W) → laws.stored id (client.lock id w).1 ≡ laws.stored id w)
    (id sub_id : String) where
  open laws use {stored}

  abbrev pub Owned : W → Type 0
  Owned w = Own sub_id (stored id w)

  pub moved : (w v : W) → stored id v ≡ stored id w → Owned w → Owned v
  moved w v e = subst (Own sub_id) (sym e)

  locked-world : (p : Option (Result (Unit {0}) String) × W) → (locked p).1 ≡ p.1
  locked-world (none, w) = refl
  locked-world (some (err e), w) = refl
  locked-world (some (ok _), w) = refl

  put-Owned :
      (d : RaftSessionData) (w : W)
      → Own sub_id (some d)
      → Owned w
      → Owned (put_data client id d w).1
  put-Owned d w own h =
      let e = ap (stored id) (from_hiqlite-world (client.put id d w)) in
      elim (laws.put-err id d w) [
        | inl p ↦ subst (Own sub_id) (sym (e ∙ p)) own
        | inr p ↦ moved w _ (e ∙ p) h
      ]

  read-Owned : (w : W) → Owned w → Owned (read_data client id w).1
  unfolding read_data
  read-Owned w h =
      >>=-keeps Owned (λ w. from_hiqlite (client.get id w)) (known client id) w
        (moved w _ (ap (stored id) (from_hiqlite-world (client.get id w)) ∙ laws.get-stored id w) h)
        (λ a p q. q)

  lock-Owned :
      {A : Type 0} (body : Action W A) (w : W)
      → ((v : W) → Owned v → Owned (body v).1)
      → Owned w
      → Owned (with_lock client id body w).1
  lock-Owned body w keeps h =
      >>=-keeps Owned (λ w. locked (client.lock id w)) (λ _. dropping (client.drop_lock id) body) w
        (moved w _ (ap (stored id) (locked-world (client.lock id w)) ∙ alone id w) h)
        (λ a p q. moved _ _ (laws.drop_lock-stored id _) (keeps _ q))

  claim-Own : (d : RaftSessionData) → Own sub_id (some d) → Own sub_id (some (claim sub_id d))
  unfolding claim
  claim-Own d (inl e) = inr (ap (claim_main sub_id) e)
  claim-Own d (inr e) = inr (ap (claim_main sub_id) e)

  read-Own :
      (w : W) (d : RaftSessionData)
      → (read_data client id w).0 ≡ ok d
      → Owned w
      → Own sub_id (some d)
  read-Own w d p h = subst (Own sub_id) ((read_data-ok client laws id w d p).0) h

  pub elect-Owned : (w : W) → Owned w → Owned (elect client id sub_id w).1
  unfolding elect elect_locked
  elect-Owned w h =
      lock-Owned (elect_locked client id sub_id) w
        (λ v q.
          >>=-keeps Owned (read_data client id)
            (λ d. put_data client id (claim sub_id d) >> pure (claim sub_id d)) v (read-Owned v q)
            (λ d p q'.
              >>=-keeps Owned (put_data client id (claim sub_id d)) (λ _. pure (claim sub_id d)) _
                (put-Owned (claim sub_id d) _ (claim-Own d (read-Own v d p q)) q')
                (λ _ _ q''. q'')))
        h

  resign_as-Owned :
      (elected : Bool) (d : RaftSessionData) (w : W)
      → Owned w
      → Owned (resign_as client elected id d w).1
  resign_as-Owned true d w h = put-Owned (record d { main_subsession_id = none }) w (inl refl) h
  resign_as-Owned false d w h = h

  pub resign-Owned : (w : W) → Owned w → Owned (resign client id sub_id w).1
  unfolding resign resign_locked
  resign-Owned w h =
      lock-Owned (resign_locked client id sub_id) w
        (λ v q.
          >>=-keeps Owned (read_data client id) (λ d. resign_as client (is_elected sub_id d) id d) v
            (read-Owned v q) (λ d p q'. resign_as-Owned (is_elected sub_id d) d _ q'))
        h

  -- The subsession that is elected is this one.
  pub elected_alone :
      (w : W) (d : RaftSessionData)
      → (elect client id sub_id w).0 ≡ ok d
      → Owned w
      → is_elected sub_id d ≡ true
  unfolding is_elected
  elected_alone w d p h =
      let (kept, (chosen, m)) = elect-ok client laws id sub_id w d p in
      elim (subst (Own sub_id) kept (elect-Owned w h)) [
        | inl e ↦ absurd (cc (m, e))
        | inr e ↦ ap (is_main sub_id) e ∙ (eq_iff sub_id sub_id).1 refl
      ]
