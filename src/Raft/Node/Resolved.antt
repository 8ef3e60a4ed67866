-- ===== src/Raft/Node/Resolved.antt =====
-- Which configurations of a node resolve, and which panic.
use overlay_mcp.Base.{
  ℕ, zero, suc, ◌≤◌, nat_eq, ◌≡◌, refl, sym, ap, ap₂, ◌∙◌, ◌↔◌, ◌⊎◌, inl, inr, arith, Bool, true,
  false, Option, none, some, List, [], ◌∷◌, length, get_elem?, Result, ok, err, if◌then◌else◌,
}
use overlay_mcp.Core.Errors.{Error}
use overlay_mcp.Raft.Node.{
  Node, RaftConfig, NodeConfig, id_at, node_id_of, find_node, node_id, config_for, config_with,
  node_config,
}

-- `find` gives a node of the list that has the id, and gives one where there is one.
find_node-some :
    (n : ℕ) (nodes : List Node) (node : Node)
    → find_node n nodes ≡ some node
    → (node.id ≡ n) × ((i : ℕ) × (get_elem? nodes i ≡ some node))
unfolding find_node
find_node-some n [] node h = absurd (cc)
find_node-some n (x ∷ nodes) node h =
    split (nat_eq x.id n) refl (λ p. find_node-some n nodes node p) h
  where
    split :
        (b : Bool)
        → nat_eq x.id n ≡ b
        → (find_node n nodes ≡ some node
            → (node.id ≡ n) × ((i : ℕ) × (get_elem? nodes i ≡ some node)))
        → (if b then some x else find_node n nodes) ≡ some node
        → (node.id ≡ n) × ((i : ℕ) × (get_elem? (x ∷ nodes) i ≡ some node))
    split true e later p =
        let same : x ≡ node = cc in
        let is_n : x.id ≡ n = ground arith in (sym (ap (λ y. y.id) same) ∙ is_n, (0, p))
    split false e later p = let (same, (i, at)) = later p in (same, (suc i, at))

find_node-at :
    (nodes : List Node) (i : ℕ) (node : Node)
    → get_elem? nodes i ≡ some node
    → (found : Node) × (find_node node.id nodes ≡ some found)
unfolding find_node
find_node-at [] i node h = absurd (cc)
find_node-at (x ∷ nodes) zero node h =
    let same : x ≡ node = cc in
    let same_id : x.id ≡ node.id = ap (λ y. y.id) same in (x, ground arith)
find_node-at (x ∷ nodes) (suc i) node h =
    let (found, p) = find_node-at nodes i node h in either (nat_eq x.id node.id) found p
  where
    either :
        (b : Bool) (found : Node)
        → find_node node.id nodes ≡ some found
        → (found : Node) × ((if b then some x else find_node node.id nodes) ≡ some found)
    either true found p = (x, refl)
    either false found p = (found, p)

module _ {Cluster : Type 0} (config : RaftConfig Cluster) where
  -- The node at `pos` of the configuration, which it names by its id alone, or by its place alone.
  abbrev pub Names : Node → ℕ → Type 0
  Names node pos =
      ((config.id ≡ some node.id) × (config.index ≡ none))
      ⊎ ((config.id ≡ none) × (config.index ≡ some pos))

  -- The place that the configuration gives is no place of its list.
  abbrev pub OutOfRange : Type 0
  OutOfRange = (config.id ≡ none) × ((i : ℕ) × (config.index ≡ some i) × (length config.nodes ≤ i))

get_elem?-none : {A : Type 0} (xs : List A) (i : ℕ) → get_elem? xs i ≡ none → length xs ≤ i
get_elem?-none [] i h = omega arith
get_elem?-none (x ∷ xs) zero h = absurd (cc)
get_elem?-none (x ∷ xs) (suc i) h = let rest = get_elem?-none xs i h in omega arith

get_elem?-outside : {A : Type 0} (xs : List A) (i : ℕ) → length xs ≤ i → get_elem? xs i ≡ none
get_elem?-outside [] i h = refl
get_elem?-outside (x ∷ xs) zero h = absurd (omega arith)
get_elem?-outside (x ∷ xs) (suc i) h = get_elem?-outside xs i (omega arith)

node_id-panics :
    (nodes : List Node) (id index : Option ℕ)
    → node_id_of nodes id index ≡ none
    → (id ≡ none) × ((i : ℕ) × (index ≡ some i) × (length nodes ≤ i))
node_id-panics nodes (some _) none h = absurd (cc)
node_id-panics nodes (some _) (some _) h = absurd (cc)
node_id-panics nodes none none h = absurd (cc)
node_id-panics nodes none (some i) h =
    (refl, (i, refl, get_elem?-none nodes i (missing (get_elem? nodes i) refl h)))
  where
    missing : (o : Option Node) → get_elem? nodes i ≡ o → id_at o ≡ none → get_elem? nodes i ≡ none
    missing none e p = e
    missing (some _) e p = absurd (cc)

-- Where an id is resolved that a node of the list has, the configuration names a node with it.
node_id-names :
    (nodes : List Node) (id index : Option ℕ) (n : ℕ)
    → node_id_of nodes id index ≡ some (ok n)
    → ((id ≡ some n) × (index ≡ none))
      ⊎ ((id ≡ none)
          × ((i : ℕ) × (node : Node) × (index ≡ some i)
              × (get_elem? nodes i ≡ some node)
              × (node.id ≡ n)))
node_id-names nodes (some m) none n h = inl (cc, refl)
node_id-names nodes (some _) (some _) n h = absurd (cc)
node_id-names nodes none none n h = absurd (cc)
node_id-names nodes none (some i) n h = inr (refl, at (get_elem? nodes i) refl h)
  where
    at :
        (o : Option Node)
        → get_elem? nodes i ≡ o
        → id_at o ≡ some (ok n)
        → (j : ℕ) × (node : Node) × (some i ≡ some j)
          × (get_elem? nodes j ≡ some node)
          × (node.id ≡ n)
    at none e p = absurd (cc)
    at (some node) e p = (i, node, refl, e, cc)

module _ {Cluster : Type 0} (config : RaftConfig Cluster) where
  abbrev Resolved : NodeConfig Cluster → Type 0
  Resolved c =
      (node : Node) × (pos : ℕ) × (get_elem? config.nodes pos ≡ some node)
      × Names config node pos
      × (c.node_id ≡ node.id)

  config-panics : (x : Option (Result ℕ Error)) → config_with config x ≡ none → x ≡ none
  config-panics none h = refl
  config-panics (some (ok _)) h = absurd (cc)
  config-panics (some (err _)) h = absurd (cc)

  outside-panics : OutOfRange config → node_config config ≡ none
  unfolding node_config node_id
  outside-panics (p, (i, q, le)) =
      ap₂ (λ x y. config_with config (node_id_of config.nodes x y)) p q
      ∙ ap (λ o. config_with config (id_at o)) (get_elem?-outside config.nodes i le)

  config_for-ok :
      (n : ℕ) (o : Option Node) (c : NodeConfig Cluster)
      → config_for config n o ≡ ok c
      → (node : Node) × (o ≡ some node) × (c.node_id ≡ n)
  config_for-ok n none c h = absurd (cc)
  config_for-ok n (some node) c h = (node, refl, same)
    where
      id_of : Result (NodeConfig Cluster) Error → ℕ
      id_of (ok c) = c.node_id
      id_of (err _) = n

      same : c.node_id ≡ n
      same = sym (ap id_of h)

  config_with-ok :
      (x : Option (Result ℕ Error)) (c : NodeConfig Cluster)
      → config_with config x ≡ some (ok c)
      → (n : ℕ) × (x ≡ some (ok n)) × (config_for config n (find_node n config.nodes) ≡ ok c)
  config_with-ok none c h = absurd (cc)
  config_with-ok (some (err _)) c h = absurd (cc)
  config_with-ok (some (ok n)) c h = (n, refl, cc)

  node_config-ok : (c : NodeConfig Cluster) → node_config config ≡ some (ok c) → Resolved c
  unfolding node_config node_id
  node_config-ok c h =
      let (n, p, q) = config_with-ok (node_id config) c h in
      let (node, found, same) = config_for-ok n (find_node n config.nodes) c q in
      let (id, (pos, at)) = find_node-some n config.nodes node found in
      elim (node_id-names config.nodes config.id config.index n p) [
        | inl (a, b) ↦ (node, pos, at, inl (a ∙ ap some (sym id), b), same ∙ sym id)
        | inr (a, (i, node', b, at', id')) ↦ (node', i, at', inr (a, b), same ∙ sym id')
      ]

  node_id-resolves :
      (node : Node) (pos : ℕ)
      → get_elem? config.nodes pos ≡ some node
      → Names config node pos
      → node_id config ≡ some (ok node.id)
  unfolding node_id
  node_id-resolves node pos at (inl (p, q)) = ap₂ (node_id_of config.nodes) p q
  node_id-resolves node pos at (inr (p, q)) = ap₂ (node_id_of config.nodes) p q ∙ ap id_at at

  named-resolves :
      (node : Node) (pos : ℕ)
      → get_elem? config.nodes pos ≡ some node
      → Names config node pos
      → (c : NodeConfig Cluster) × (node_config config ≡ some (ok c)) × (c.node_id ≡ node.id)
  unfolding node_config
  named-resolves node pos at names =
      let (found, p) = find_node-at config.nodes pos node at in
      (
        _,
        ap (config_with config) (node_id-resolves node pos at names)
            ∙ ap (λ o. some (config_for config node.id o)) p,
        refl,
      )

  -- A node's configuration panics just where it gives a place out of its list, and no id. It resolves to the id of a
  -- listed node just where it gives that node's id and no place, or its place and no id; all others are errors.
  pub node_config-resolved :
      (node_config config ≡ none ↔ OutOfRange config)
      × ((c : NodeConfig Cluster)
          → node_config config ≡ some (ok c)
          → (node : Node) × (pos : ℕ) × (get_elem? config.nodes pos ≡ some node)
            × Names config node pos
            × (c.node_id ≡ node.id))
      × ((node : Node) (pos : ℕ)
          → get_elem? config.nodes pos ≡ some node
          → Names config node pos
          → (c : NodeConfig Cluster) × (node_config config ≡ some (ok c)) × (c.node_id ≡ node.id))
  unfolding node_config node_id
  node_config-resolved = (
    (
      λ h. node_id-panics config.nodes config.id config.index (config-panics (node_id config) h),
      outside-panics,
    ),
    node_config-ok,
    named-resolves,
  )
