-- ===== src/Standalone/Streams.antt =====
-- Each stream of a session has one user at a time, and when a `guard_…` gets one.
use overlay_mcp.Base.{
  ◌≡◌, refl, sym, ap, ◌∙◌, subst, ◌↔◌, inl, inr, Bool, true, false, Option-cases, none, some, List,
  [], ◌∷◌, ◌++◌, Any, here, there, ok, err, if◌then◌else◌,
}
use overlay_mcp.Core.Errors.{already_closed_session, fatal, timeout}
use overlay_mcp.Standalone.{Slot, Session, lone, take_slot, guard_loop, guard_stream}

-- A guard is given, or a guard is dropped and its stream goes back.
pub data SlotStep {A : Type 0} (slot : Slot A) : Slot A → Type 0 where
  gives : {a : A} {after : Slot A} → take_slot slot ≡ some (a, after) → SlotStep slot after
  drops :
      {a : A} (before rest : List A)
      → slot.lent ≡ before ++ (a ∷ rest)
      → SlotStep slot (record { free = some a; lent = before ++ rest })

pub data SlotSteps {A : Type 0} (slot : Slot A) : Slot A → Type 0 where
  still : SlotSteps slot slot
  onward : {mid after : Slot A} → SlotSteps slot mid → SlotStep mid after → SlotSteps slot after

-- The stream `a` is free, or under one guard, and the slot has no other.
pub data Has {A : Type 0} (a : A) (slot : Slot A) : Type 0 where
  kept : slot.free ≡ some a → slot.lent ≡ [] → Has a slot
  used : slot.free ≡ none → slot.lent ≡ a ∷ [] → Has a slot

only :
    {A : Type 0} (a b : A) (before rest : List A)
    → a ∷ [] ≡ before ++ (b ∷ rest)
    → (b ≡ a) × (before ++ rest ≡ [])
only a b [] rest h = (cc, cc)
only a b (x ∷ []) rest h = absurd (cc)
only a b (x ∷ y ∷ before) rest h = absurd (cc)

cons_apart : {A : Type 0} (b : A) (before rest : List A) → ¬ ([] ≡ before ++ (b ∷ rest))
cons_apart b [] rest h = cc
cons_apart b (x ∷ before) rest h = cc

take_slot-some :
    {A : Type 0} (slot : Slot A) (a : A)
    → slot.free ≡ some a
    → take_slot slot ≡ some (a, record { free = none; lent = a ∷ slot.lent })
take_slot-some slot a p = simp (p) refl

take_slot-none : {A : Type 0} (slot : Slot A) → slot.free ≡ none → take_slot slot ≡ none
take_slot-none slot p = simp (p) refl

pub step-Has :
    {A : Type 0} (a : A) (slot after : Slot A) → SlotStep slot after → Has a slot → Has a after
step-Has a slot after (gives {a = b} h) (kept p q) =
    let e : record { free = none; lent = a ∷ slot.lent } ≡ after =
      cc (take_slot-some slot a p, h) in
    subst (Has a) e (used refl (ap (λ xs. a ∷ xs) q))
step-Has a slot after (gives {a = b} h) (used p q) = absurd (cc (take_slot-none slot p, h))
step-Has a slot _ (drops {a = b} before rest h) (kept p q) =
    absurd (cons_apart b before rest (sym q ∙ h))
step-Has a slot _ (drops {a = b} before rest h) (used p q) =
    let (e, f) = only a b before rest (sym q ∙ h) in kept (ap some e) f

steps-Has :
    {A : Type 0} (a : A) (slot after : Slot A) → SlotSteps slot after → Has a slot → Has a after
steps-Has a slot _ still h = h
steps-Has a slot _ (onward {mid} {after} w t) h = step-Has a mid after t (steps-Has a slot mid w h)

-- Over any giving and dropping of its guards, the stream of a new session is free, or under exactly one
-- guard: no two users have it at once, and no drop loses it.
pub lone-Has : {A : Type 0} (a : A) (after : Slot A) → SlotSteps (lone a) after → Has a after
lone-Has a after w = steps-Has a (lone a) after w (kept refl refl)

module _ {R S U D B A : Type 0} (get : Session R S U D B → Slot A)
    (put : Slot A → Session R S U D B → Session R S U D B) where
  abbrev Free : Session R S U D B → Type 0
  Free s = (a : A) × ((get s).free ≡ some a)

  guard_loop-given :
      (self : Session R S U D B) (rest : List (Session R S U D B))
      → Free self
      → (a : A) × ((guard_loop get put self rest).0 ≡ ok a)
  unfolding guard_loop
  guard_loop-given self [] (a, p) = (a, simp (p) refl)
  guard_loop-given self (next ∷ rest) (a, p) = (a, simp (p) refl)

  guard_loop-wait :
      (self next : Session R S U D B) (rest : List (Session R S U D B))
      → (get self).free ≡ none
      → guard_loop get put self (next ∷ rest) ≡ guard_loop get put next rest
  unfolding guard_loop
  guard_loop-wait self next rest p = simp (p) refl

  guard_loop-late :
      (self : Session R S U D B)
      → (get self).free ≡ none
      → (guard_loop get put self []).0 ≡ err (fatal timeout)
  unfolding guard_loop
  guard_loop-late self p = simp (p) refl

  guard_loop-ok :
      (self : Session R S U D B) (rest : List (Session R S U D B))
      → Any Free (self ∷ rest)
      → (a : A) × ((guard_loop get put self rest).0 ≡ ok a)
  guard_loop-ok self rest (here f) = guard_loop-given self rest f
  guard_loop-ok self [] (there f) = elim f [ ]
  guard_loop-ok self (next ∷ rest) (there f) = elim (Option-cases (get self).free) [
    | inl p ↦
        let (a, e) = guard_loop-ok next rest f in
        (a, ap (λ r. r.0) (guard_loop-wait self next rest p) ∙ e)
    | inr (a, p) ↦ guard_loop-given self (next ∷ rest) (a, p)
  ]

  ok-guard_loop :
      (self : Session R S U D B) (rest : List (Session R S U D B)) (a : A)
      → (guard_loop get put self rest).0 ≡ ok a
      → Any Free (self ∷ rest)
  ok-guard_loop self [] a h = elim (Option-cases (get self).free) [
    | inl p ↦ absurd (cc (guard_loop-late self p, h))
    | inr f ↦ here f
  ]
  ok-guard_loop self (next ∷ rest) a h = elim (Option-cases (get self).free) [
    | inl p ↦
        there
          (ok-guard_loop next rest a (sym (ap (λ r. r.0) (guard_loop-wait self next rest p)) ∙ h))
    | inr f ↦ here f
  ]

  -- A `guard_…` gets its stream exactly where the session is not closed and one of the looks that it takes
  -- at the stream, before its time is up, finds it free.
  pub guard_stream-ok :
      (self : Session R S U D B) (rest : List (Session R S U D B))
      → ((a : A) × ((guard_stream get put self rest).0 ≡ ok a))
        ↔ ((self.cancelled ≡ false) × Any Free (self ∷ rest))
  unfolding guard_stream
  guard_stream-ok self rest = go self.cancelled
    where
      go :
          (b : Bool)
          → ((a : A) × ((if b
                  then (err (already_closed_session self.session_id), self)
                  else guard_loop get put self rest).0
                ≡ ok a))
            ↔ ((b ≡ false) × Any Free (self ∷ rest))
      go true = (λ (a, h). absurd (cc), λ (p, q). absurd (cc))
      go false =
          (λ (a, h). (refl, ok-guard_loop self rest a h), λ (p, q). guard_loop-ok self rest q)
