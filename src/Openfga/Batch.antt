-- ===== src/Openfga/Batch.antt =====
-- A batch answers each of its checks, though it takes the answers out of the map one by one.
use overlay_mcp.Base.{
  String, eq_iff, ◌≡◌, ◌≢◌, refl, ap, ap₂, Bool, none, some, List, [], ◌∷◌, map, All, arith, lookup,
  remove, lookup-remove, ok,
}
use overlay_mcp.Openfga.{
  BatchCheckElem, BatchCheckResponse, CheckBody, Openfga, Server, or_false, batch_elems,
  collect_results, batch_check, batch_simple_check,
}

-- No id stands twice.
abbrev pub Distinct : List BatchCheckElem → Type 0
Distinct [] = Unit
Distinct (c ∷ cs) = All (λ d. c.correlation_id ≢ d.correlation_id) cs × Distinct cs

-- The answer of each check, `false` where the server gave none.
abbrev pub own_answers : List (String × Bool) → List BatchCheckElem → List Bool
own_answers result = map (λ c. or_false (lookup c.correlation_id result))

-- `r` has the answers of `result` for these checks.
abbrev Agrees : List (String × Bool) → List (String × Bool) → List BatchCheckElem → Type 0
Agrees r result = All (λ c. lookup c.correlation_id r ≡ lookup c.correlation_id result)

Agrees-remove :
    (k : String) (r result : List (String × Bool)) (cs : List BatchCheckElem)
    → All (λ d. k ≢ d.correlation_id) cs
    → Agrees r result cs
    → Agrees (remove k r) result cs
Agrees-remove k r result [] d a = tt
Agrees-remove k r result (c ∷ cs) (n, d) (e, a) = (
  ground (arith, lookup-remove k c.correlation_id r, eq_iff k c.correlation_id),
  Agrees-remove k r result cs d a,
)

collect_results-own :
    (cs : List BatchCheckElem) (r result : List (String × Bool))
    → Distinct cs
    → Agrees r result cs
    → collect_results cs r ≡ own_answers result cs
unfolding collect_results
collect_results-own [] r result d a = refl
collect_results-own (c ∷ cs) r result (n, d) (e, a) =
    ap₂ (λ (b : Bool) bs. b ∷ bs) (ap or_false e)
      (collect_results-own cs (remove c.correlation_id r) result d
        (Agrees-remove c.correlation_id r result cs n a))

Agrees-refl : (result : List (String × Bool)) (cs : List BatchCheckElem) → Agrees result result cs
Agrees-refl result [] = tt
Agrees-refl result (c ∷ cs) = (refl, Agrees-refl result cs)

-- Where the fresh ids are distinct, a batch that the server answers gives, in the order of the checks,
-- each check's own answer, and `false` for a check that the server left out.
pub batch_simple_check-own :
    (server : Server) (self : Openfga) (tuples : List (CheckBody × String))
    (resp : BatchCheckResponse)
    → Distinct (batch_elems tuples)
    → batch_check server self none (record { checks = batch_elems tuples }) ≡ some (ok resp)
    → batch_simple_check server self tuples
      ≡ some (ok (own_answers resp.result (batch_elems tuples)))
unfolding batch_simple_check batch_elems
batch_simple_check-own server self tuples resp d h =
    rw (h, batch_simple_check)
      (ap (λ bs. some (ok bs))
        (collect_results-own (batch_elems tuples) resp.result resp.result d (Agrees-refl _ _)))
