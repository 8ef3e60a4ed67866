-- ===== src/Resolver/Discovery.antt =====
-- What a discovery resolver serves after its reloads.
use overlay_mcp.Base.{
  String, ℕ, ◌≡◌, refl, ◌∙◌, ap, subst, Option, none, some, List, [], ◌∷◌, get_elem?, Any, here,
  there, ok, inl, inr, zero, suc,
}
use overlay_mcp.Core.Errors.{Url}
use overlay_mcp.Resolver.{InnerDiscoveryResolver, discovery, take_turn, resolve, found_urls, reload}
use overlay_mcp.Resolver.Rounds.{Ends, take_turn-Ends}

module _ (set_host : Url → String → Option Url) where
  -- The reload task's rounds, each with what its lookup returned.
  abbrev pub reloads : List (Option (List String)) → InnerDiscoveryResolver → InnerDiscoveryResolver
  reloads [] self = self
  reloads (answer ∷ answers) self = reloads answers (reload set_host answer self)

  -- The last lookup that succeeded.
  abbrev pub last_found : List (Option (List String)) → Option (List String) → Option (List String)
  last_found [] found = found
  last_found (none ∷ answers) found = last_found answers found
  last_found (some ips ∷ answers) found = last_found answers (some ips)

  -- `u` is the configured URL with one of the addresses for its host.
  abbrev pub FromAddress : Url → List String → Url → Type 0
  FromAddress target ips u = Any (λ ip. set_host target ip ≡ some u) ips

  found_urls-FromAddress :
      (target : Url) (ips : List String) (i : ℕ) (u : Url)
      → get_elem? (found_urls set_host target ips) i ≡ some u
      → FromAddress target ips u
  unfolding found_urls
  found_urls-FromAddress target [] i u h = absurd (cc)
  found_urls-FromAddress target (ip ∷ ips) i u h =
      go (set_host target ip) refl i (λ k. found_urls-FromAddress target ips k u) h
    where
      go :
          (o : Option Url)
          → set_host target ip ≡ o
          → (i : ℕ)
          → ((k : ℕ)
              → get_elem? (found_urls set_host target ips) k ≡ some u
              → FromAddress target ips u)
          → get_elem? (found_urls set_host target (ip ∷ ips)) i ≡ some u
          → FromAddress target (ip ∷ ips) u
      go none e i ih h = there (ih i (rw (e, found_urls) at h))
      go (some v) e zero ih h =
          let same : some v ≡ some u = rw (e, found_urls) at h in here (e ∙ same)
      go (some v) e (suc i) ih h = there (ih i (rw (e, found_urls) at h))

  -- The addresses that `self` serves are those of `found`.
  abbrev pub ServesFound : InnerDiscoveryResolver → Option (List String) → Type 0
  ServesFound self none = self.turns.urls ≡ []
  ServesFound self (some ips) = self.turns.urls ≡ found_urls set_host self.discovery ips

  reloads-ServesFound :
      (answers : List (Option (List String))) (self : InnerDiscoveryResolver)
      (found : Option (List String))
      → ServesFound self found
      → ServesFound (reloads answers self) (last_found answers found)
        × ((reloads answers self).discovery ≡ self.discovery)
  unfolding reload
  reloads-ServesFound [] self found h = (h, refl)
  reloads-ServesFound (none ∷ answers) self found h = reloads-ServesFound answers self found h
  reloads-ServesFound (some ips ∷ answers) self found h =
      reloads-ServesFound answers (reload set_host (some ips) self) (some ips) refl

  abbrev pub fresh : Url → InnerDiscoveryResolver
  fresh target = record { discovery = target; turns = record { counter = 0; urls = [] } }

  served-found :
      (self : InnerDiscoveryResolver) (found : Option (List String)) (u : Url)
      → ServesFound self found
      → (take_turn self.turns).0 ≡ some (ok u)
      → (ips : List String) × (found ≡ some ips) × FromAddress self.discovery ips u
  served-found self found u h e = go found refl (take_turn-Ends self.turns)
    where
      go :
          (o : Option (List String))
          → found ≡ o
          → Ends self.turns
          → (ips : List String) × (found ≡ some ips) × FromAddress self.discovery ips u
      go o p (inl (_, f)) = absurd (let bad = ap (λ r. r.0) f in cc)
      go none p (inr (i, v, g, t)) =
          let empty : self.turns.urls ≡ [] = subst (ServesFound self) p h in
          absurd (let bad : none ≡ some v = rw empty at g in cc)
      go (some ips) p (inr (i, v, g, t)) =
          let urls : self.turns.urls ≡ found_urls set_host self.discovery ips =
            subst (ServesFound self) p h in
          let same : v ≡ u = cc in
          (
            ips,
            p,
            subst (FromAddress self.discovery ips) same
                (found_urls-FromAddress self.discovery ips i v (rw urls at g)),
          )

  -- After any rounds of the reload task, failed lookups among them, a resolver serves only the
  -- configured URL at an address that the last successful lookup found, and nothing before the first.
  pub resolve-last_found :
      (target : Url) (answers : List (Option (List String))) (u : Url)
      → (resolve (discovery (reloads answers (fresh target)))).0 ≡ some (ok u)
      → (ips : List String) × (last_found answers none ≡ some ips) × FromAddress target ips u
  unfolding resolve
  resolve-last_found target answers u h =
      let (serves, same) = reloads-ServesFound answers (fresh target) none refl in
      let (ips, p, a) =
        served-found (reloads answers (fresh target)) (last_found answers none) u serves h in
      (ips, p, subst (λ t. FromAddress t ips u) same a)
