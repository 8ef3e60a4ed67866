-- ===== src/Resolver/Rounds.antt =====
-- The turns are fair: any round of as many calls as there are URLs serves each URL once.
use Prim.Native.Nat.add
use mathlib.Core.Path.{ap₂}
use mathlib.Core.List.{append-nil, map-append}
use native.Mathlib.Nat.{
  mul-add-mod_self_right, mod-eq_of_lt, mod-lt, div-add-mod', add-zero, sub-zero, suc-sub-suc,
}
use overlay_mcp.Base.{
  ℕ, zero, suc, ◌+◌, ◌-◌, ◌*◌, ◌%◌, ◌≤◌, ◌<◌, ◌≡◌, refl, sym, ap, subst, ◌∙◌, ◌/◌, ◌⊎◌, inl, inr,
  Option, some, List, [], ◌∷◌, ◌++◌, map, arith, length, get_elem?, get_elem?-some, take, drop,
  drop-get_elem?, take_all, Result, ok, err,
}
use overlay_mcp.Core.Errors.{Url, Error, service_unavailable, no_upstream_mcp_server}
use overlay_mcp.Resolver.{Turns, take_turn, usize_mod}

-- `k` calls in a row: what each returns.
abbrev pub serve : ℕ → Turns → List (Option (Result Url Error))
serve zero self = []
serve (suc k) self = let (url, self') = take_turn self in url ∷ serve k self'

abbrev pub answers : List Url → List (Option (Result Url Error))
answers = map (λ url. some (ok url))

mod_place : (q n j : ℕ) → j < n → (q * n + j) % n ≡ j
mod_place q n j h = mul-add-mod_self_right q n j ∙ mod-eq_of_lt h

-- A turn in range of the URLs, and of the counter.
pub take_turn-at :
    (urls : List Url) (c j : ℕ) (u : Url)
    → c % length urls ≡ j
    → get_elem? urls j ≡ some u
    → c + 1 < usize_mod
    → take_turn (record { counter = c; urls = urls })
      ≡ (some (ok u), record { counter = c + 1; urls = urls })
unfolding take_turn
take_turn-at [] c j u m g h = absurd (cc)
take_turn-at (x ∷ xs) c j u m g h = rw m (rw g (rw (mod-eq_of_lt h)))

-- A run of calls that stays below the end of the list, and the calls after it.
serve_from :
    (k m c q j : ℕ) (urls : List Url)
    → c ≡ q * length urls + j
    → j + k ≤ length urls
    → c + k < usize_mod
    → serve (k + m) (record { counter = c; urls = urls })
      ≡ answers (take k (drop j urls)) ++ serve m (record { counter = c + k; urls = urls })
serve_from zero m c q j urls e fits small = rw (add.zero m) (rw (add-zero c))
serve_from (suc k) m c q j urls e fits small =
    let (u, g) = get_elem?-some urls j (omega arith) in
    let place : c % length urls ≡ j =
      ap (λ (x : ℕ). x % length urls) e ∙ mod_place q (length urls) j (omega arith) in
    let count : c + 1 + k ≡ c + suc k = omega arith in
    rw (add.suc k m, take_turn-at urls c j u place g (omega arith))
      (rw (drop-get_elem? urls j u g) (
        rw (← count) (
          ap (◌∷◌ (some (ok u)))
            (serve_from k m (c + 1) q (suc j) urls (omega arith) (omega arith) (omega arith)))))

take-nil : (k : ℕ) → take {A = Url} k [] ≡ []
take-nil zero = refl
take-nil (suc k) = refl

take-drop : (j : ℕ) (urls : List Url) → take (length urls - j) (drop j urls) ≡ drop j urls
take-drop zero urls = rw (sub-zero (length urls)) (take_all urls)
take-drop (suc j) [] = take-nil (0 - suc j)
take-drop (suc j) (x ∷ xs) = rw (suc-sub-suc (length xs) j) (take-drop j xs)

-- As many calls in a row as there are URLs serve the URLs in their order, each once, beginning at the
-- one whose turn it is, as long as the counter of 64 bits does not wrap meanwhile.
pub serve_round :
    (urls : List Url) (c : ℕ)
    → 0 < length urls
    → c + length urls < usize_mod
    → let j = c % length urls in
      serve (length urls) (record { counter = c; urls = urls })
      ≡ answers (drop j urls ++ take j urls)
serve_round urls c some_url small =
    let n = length urls in
    let j = c % n in
    let q = c / n in
    let below : j < n = mod-lt c some_url in
    let split : c ≡ q * n + j = sym (div-add-mod' c n) in
    let count : (n - j) + (j + 0) ≡ n = omega arith in
    let next : c + (n - j) ≡ suc q * n + 0 = grind arith in
    subst
      (λ k. serve k (record { counter = c; urls = urls }) ≡ answers (drop j urls ++ take j urls))
      count
      (serve_from (n - j) (j + 0) c q j urls split (omega arith) (omega arith)
        ∙ ap₂ (λ xs ys. answers xs ++ ys) (take-drop j urls)
            (serve_from j 0 (c + (n - j)) (suc q) 0 urls next (omega arith) (omega arith)
              ∙ append-nil _)
        ∙ sym (map-append _ (drop j urls) (take j urls)))

-- A call ends without a panic, in an error and no turn, or in a URL of the list.
abbrev pub Ends : Turns → Type 0
Ends self =
    ((self.urls ≡ [])
      × (take_turn self ≡ (some (err (service_unavailable no_upstream_mcp_server)), self)))
    ⊎ ((i : ℕ) × (u : Url) × (get_elem? self.urls i ≡ some u) × ((take_turn self).0 ≡ some (ok u)))

turns-Ends : (c : ℕ) (urls : List Url) → Ends (record { counter = c; urls = urls })
unfolding take_turn
turns-Ends c [] = inl (refl, refl)
turns-Ends c (x ∷ xs) =
    let (u, g) = get_elem?-some (x ∷ xs) (c % suc (length xs)) (mod-lt c (omega arith)) in
    inr (c % suc (length xs), u, g, rw g)

-- A call never panics: with no URL it is `NoUpstreamMcpServer`, and takes no turn; else it is one of
-- the URLs, whatever the counter holds.
pub take_turn-Ends : (self : Turns) → Ends self
take_turn-Ends self = turns-Ends self.counter self.urls
