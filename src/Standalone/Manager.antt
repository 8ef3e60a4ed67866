-- ===== src/Standalone/Manager.antt =====
-- crates/overlay-mcp-standalone/src/session_manager.rs, and the task of `StandaloneSession::new` that
-- takes a cancelled session out of the manager's map.
use overlay_mcp.Base.{
  String, ◌≡◌, ◌≢◌, refl, ap, ◌∙◌, All, Bool-cases, inl, inr, true, if_distinct, if_same, Option,
  none, some, List, [], ◌∷◌, lookup, insert, remove, lookup-insert, lookup-remove, Result, ok,
  if◌then◌else◌,
}
use overlay_mcp.Core.Errors.{Error}
use overlay_mcp.Standalone.{Session, new}

-- `sessions`, with the state of each session.
pub record StandaloneManager (R S U D B : Type 0) : Type 0 where
  pub sessions : List (String × Session R S U D B)

pub data Use (R S U D B : Type 0) : Type 0 where
  creates : (session_id : String) → U → D → B → R → S → Use R S U D B
  cleans : Session R S U D B → Use R S U D B

module _ {R S U D B : Type 0} where
  abbrev pub empty : StandaloneManager R S U D B
  empty = record { sessions = [] }

  -- The id is `Uuid::new_v4`'s, the channels are tokio's.
  unfoldable pub create :
      (session_id : String) (u : U) (d : D) (b : B) (r : R) (s : S)
      → StandaloneManager R S U D B
      → Session R S U D B × StandaloneManager R S U D B
  create session_id u d b r s self =
      let session = new session_id u d b r s in
      (session, record { sessions = insert session_id session self.sessions })

  unfoldable pub find :
      String → StandaloneManager R S U D B → Result (Option (Session R S U D B)) Error
  find session_id self = ok (lookup session_id self.sessions)

  -- `stop_ct.cancelled().await`, then the removal.
  unfoldable pub cleanup :
      Session R S U D B → StandaloneManager R S U D B → StandaloneManager R S U D B
  cleanup session self =
      if session.cancelled
      then record { sessions = remove session.session_id self.sessions }
      else self

  abbrev pub use_one : Use R S U D B → StandaloneManager R S U D B → StandaloneManager R S U D B
  unfolding create cleanup
  use_one (creates session_id u d b r s) self = (create session_id u d b r s self).1
  use_one (cleans session) self = cleanup session self

  unfoldable pub use_all :
      List (Use R S U D B) → StandaloneManager R S U D B → StandaloneManager R S U D B
  use_all [] self = self
  use_all (x ∷ xs) self = use_all xs (use_one x self)

  -- The use is no creation under the id, and no end of a session with it.
  abbrev pub Spares : String → Use R S U D B → Type 0
  Spares id (creates session_id _ _ _ _ _) = session_id ≢ id
  Spares id (cleans session) = session.session_id ≢ id

  use_one-find :
      (id : String) (x : Use R S U D B) (self : StandaloneManager R S U D B)
      → Spares id x
      → lookup id (use_one x self).sessions ≡ lookup id self.sessions
  unfolding create cleanup use_one
  use_one-find id (creates session_id u d b r s) self n =
      lookup-insert session_id id (new session_id u d b r s) self.sessions
      ∙ if_distinct session_id id n _ _
  use_one-find id (cleans session) self n = elim (Bool-cases session.cancelled) [
    | inl e ↦ simp (e) (
        lookup-remove session.session_id id self.sessions ∙ if_distinct session.session_id id n _ _)
    | inr e ↦ simp (e) refl
  ]

  use_all-find :
      (id : String) (xs : List (Use R S U D B)) (self : StandaloneManager R S U D B)
      → All (Spares id) xs
      → lookup id (use_all xs self).sessions ≡ lookup id self.sessions
  unfolding use_all
  use_all-find id [] self a = refl
  use_all-find id (x ∷ xs) self (n, a) =
      use_all-find id xs (use_one x self) a ∙ use_one-find id x self n

  -- A created session is found under its id, whatever is created or ends under other ids meanwhile; and once
  -- a session with that id is cancelled and cleaned up, the id is not found any more, unless it is created
  -- again.
  pub create-find :
      (id : String) (u : U) (d : D) (b : B) (r : R) (s : S) (self : StandaloneManager R S U D B)
      (before after : List (Use R S U D B)) (session : Session R S U D B)
      → All (Spares id) before
      → All (Spares id) after
      → session.session_id ≡ id
      → session.cancelled ≡ true
      → let made = use_all before (create id u d b r s self).1 in
        (find id made ≡ ok (some (new id u d b r s)))
        × (find id (use_all after (cleanup session made)) ≡ ok none)
  unfolding find create cleanup
  create-find id u d b r s self before after session p q e c =
      let made = use_all before (create id u d b r s self).1 in
      (
        ap ok (
            use_all-find id before _ p
            ∙ lookup-insert id id (new id u d b r s) self.sessions
            ∙ if_same id _ _),
        ap ok (use_all-find id after _ q ∙ gone),
      )
    where
      gone :
          lookup id (cleanup session (use_all before (create id u d b r s self).1)).sessions ≡ none
      gone =
          simp (c, e)
            (lookup-remove id id (use_all before (create id u d b r s self).1).sessions
              ∙ if_same id _ _)
