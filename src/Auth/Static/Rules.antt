-- ===== src/Auth/Static/Rules.antt =====
-- The JWT rules of authz_static.rs against a description of what they let in.
use overlay_mcp.Base.{
  String, ◌==◌, ◌≡◌, refl, inl, inr, ap, subst, true, false, none, some, List, [], ◌∷◌, map, arith,
  All, Any, here, there, contains, eq_iff, Bool-cases, ok, >>=-eq-ok,
}
use overlay_mcp.Core.Json.{Value, string, array, items, as_array}
use overlay_mcp.Core.Errors.{PointerBuf, JwtContextPointerType, string_array}
use overlay_mcp.Core.Models.{allow}
use overlay_mcp.Core.Config.{JwtWhitelistAndBlacklist}
use overlay_mcp.Auth.Static.{collect_strings, claim_values, scan}

-- `a` is one of the texts of a set.
abbrev pub In : String → List String → Type 0
In a = Any (λ x. x ≡ a)

pub contains-In : (xs : List String) (a : String) → contains xs a ≡ true → In a xs
contains-In [] a h = cc
contains-In (x ∷ xs) a h = elim (Bool-cases (x == a)) [
  | inl e ↦ here ((eq_iff x a).0 e)
  | inr e ↦ there (contains-In xs a (ground (arith, e)))
]

pub In-contains : (xs : List String) (a : String) → In a xs → contains xs a ≡ true
In-contains [] a h = elim h [ ]
In-contains (x ∷ xs) a (here e) = ground (arith, (eq_iff x a).1 e)
In-contains (x ∷ xs) a (there h) = ground (arith, In-contains xs a h)

pub not_In : (xs : List String) (a : String) → contains xs a ≡ false → ¬ In a xs
not_In xs a h i = cc (In-contains xs a i)

-- The claim `v`, read at type `t`, holds the texts `vals`.
pub data HasValues : JwtContextPointerType → Value → List String → Type 0 where
  one : (s : String) (v : Value) → v ≡ string s → HasValues JwtContextPointerType.string v (s ∷ [])
  many :
      (v : Value) (vs : List Value) (vals : List String)
      → as_array v ≡ some vs
      → vs ≡ map string vals
      → HasValues string_array v vals

abbrev pub IsUnlisted : JwtWhitelistAndBlacklist → String → Type 0
IsUnlisted rule val = (¬ In val rule.blacklist) × (¬ In val rule.whitelist)

-- The first value that a list of the rule names is whitelisted, and not blacklisted.
pub data Picks (rule : JwtWhitelistAndBlacklist) : List String → Type 0 where
  picked :
      {val : String} {vals : List String}
      → ¬ In val rule.blacklist
      → In val rule.whitelist
      → Picks rule (val ∷ vals)
  passed :
      {val : String} {vals : List String}
      → IsUnlisted rule val
      → Picks rule vals
      → Picks rule (val ∷ vals)

collect_strings-cons :
    (path : PointerBuf) (x : Value) (xs : List Value) (vals : List String)
    → collect_strings path (x ∷ xs) ≡ ok vals
    → (s : String) × (rest : List String) × (x ≡ string s)
      × (collect_strings path xs ≡ ok rest)
      × (vals ≡ s ∷ rest)
unfolding collect_strings
collect_strings-cons path (string s) xs vals h =
    let (rest, e, q) = >>=-eq-ok (collect_strings path xs) (λ rest. ok (s ∷ rest)) h in
    (s, rest, refl, e, cc)
collect_strings-cons path x xs vals h = absurd (cc)

collect_strings-map :
    (path : PointerBuf) (xs : List Value) (vals : List String)
    → collect_strings path xs ≡ ok vals
    → xs ≡ map string vals
collect_strings-map path [] vals h = unfold collect_strings in ground arith
collect_strings-map path (x ∷ xs) vals h =
    let (s, rest, e, q, r) = collect_strings-cons path x xs vals h in
    rw (r, e) (ap (◌∷◌ (string s)) (collect_strings-map path xs rest q))

map-collect_strings :
    (path : PointerBuf) (vals : List String) → collect_strings path (map string vals) ≡ ok vals
unfolding collect_strings
map-collect_strings path [] = refl
map-collect_strings path (v ∷ vals) = rw (map-collect_strings path vals)

pub claim_values-HasValues :
    (path : PointerBuf) (t : JwtContextPointerType) (v : Value) (vals : List String)
    → claim_values path t v ≡ ok vals
    → HasValues t v vals
unfolding claim_values
claim_values-HasValues path JwtContextPointerType.string (string s) vals h =
    subst (HasValues _ _) (ground arith) (one s (string s) refl)
claim_values-HasValues path string_array (array vs) vals h =
    many _ (items vs) vals refl (collect_strings-map path (items vs) vals h)
claim_values-HasValues path t v vals h = absurd (ground arith)

pub HasValues-claim_values :
    (path : PointerBuf) (t : JwtContextPointerType) (v : Value) (vals : List String)
    → HasValues t v vals
    → claim_values path t v ≡ ok vals
unfolding claim_values
HasValues-claim_values path _ _ _ (one s v e) = rw e
HasValues-claim_values path _ _ _ (many v vs vals e m) = rw e (rw m (map-collect_strings path vals))

pub scan-Picks :
    (rule : JwtWhitelistAndBlacklist) (vals : List String)
    → scan rule vals ≡ some allow
    → Picks rule vals
unfolding scan
scan-Picks rule [] h = absurd (cc)
scan-Picks rule (val ∷ vals) h = elim (Bool-cases (contains rule.blacklist val)) [
  | inl b ↦ absurd (ground arith)
  | inr b ↦ elim (Bool-cases (contains rule.whitelist val)) [
    | inl w ↦ picked (not_In _ _ b) (contains-In _ _ w)
    | inr w ↦ passed (not_In _ _ b, not_In _ _ w) (scan-Picks rule vals (ground arith))
  ]
]

not_contains : (xs : List String) (a : String) → ¬ In a xs → contains xs a ≡ false
not_contains xs a h = elim (Bool-cases (contains xs a)) [
  | inl e ↦ absurd (h (contains-In xs a e))
  | inr e ↦ e
]

pub Picks-scan :
    (rule : JwtWhitelistAndBlacklist) (vals : List String)
    → Picks rule vals
    → scan rule vals ≡ some allow
unfolding scan
Picks-scan rule _ (picked {val} {vals} b w) =
    rw (not_contains rule.blacklist val b, In-contains rule.whitelist val w)
Picks-scan rule _ (passed {val} {vals} u p) =
    rw (not_contains rule.blacklist val u.0, not_contains rule.whitelist val u.1)
      (Picks-scan rule vals p)

pub scan-none :
    (rule : JwtWhitelistAndBlacklist) (vals : List String)
    → scan rule vals ≡ none
    → All (IsUnlisted rule) vals
unfolding scan
scan-none rule [] h = tt
scan-none rule (val ∷ vals) h = elim (Bool-cases (contains rule.blacklist val)) [
  | inl b ↦ absurd (ground arith)
  | inr b ↦ elim (Bool-cases (contains rule.whitelist val)) [
    | inl w ↦ absurd (ground arith)
    | inr w ↦ ((not_In _ _ b, not_In _ _ w), scan-none rule vals (ground arith))
  ]
]

pub none-scan :
    (rule : JwtWhitelistAndBlacklist) (vals : List String)
    → All (IsUnlisted rule) vals
    → scan rule vals ≡ none
unfolding scan
none-scan rule [] h = refl
none-scan rule (val ∷ vals) (u, h) =
    rw (not_contains rule.blacklist val u.0, not_contains rule.whitelist val u.1)
      (none-scan rule vals h)
