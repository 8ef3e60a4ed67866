-- ===== src/Cli/Merge.antt =====
-- The cluster that the command line configures.
use overlay_mcp.Base.{String, ◌==◌, ◌≡◌, refl, ◌↔◌, ℕ, Option, none, some, if◌then◌else◌}
use overlay_mcp.Core.Json.{Value, number, string, object, pos_int, Fields, end, field}
use overlay_mcp.Cli.{SubcommandRun, clean_json, cluster, figment_merge}

abbrev pub entry : String → Fields → Option Value
entry k end = none
entry k (field j v fs) = if j == k then some v else entry k fs

-- The value under a key, where there is one.
abbrev pub get : String → Option Value → Option Value
get k (some (object fs)) = entry k fs
get k _ = none

abbrev number_of : Option ℕ → Option Value
number_of none = none
number_of (some n) = some (number (pos_int n))

abbrev text_of : Option String → Option Value
text_of none = none
text_of (some s) = some (string s)

-- The server part of the command line, as it is merged.
abbrev pub merged_server : SubcommandRun → Option Value
merged_server cli = get "server" (some (figment_merge cli))

abbrev Holds : SubcommandRun → Type 0
Holds cli =
    (get "hostname" (merged_server cli) ≡ text_of cli.hostname)
    × (get "id" (get "cluster" (merged_server cli)) ≡ number_of cli.raft_id)
    × (get "index" (get "cluster" (merged_server cli)) ≡ number_of cli.raft_index)
    × ((get "type" (get "cluster" (merged_server cli)) ≡ some (string "raft"))
        ↔ ((id : ℕ) × (cli.raft_id ≡ some id)))

holds :
    (cli : SubcommandRun) (hostname : Option String) (raft_id raft_index : Option ℕ)
    → Holds (record cli { hostname = hostname; raft_id = raft_id; raft_index = raft_index })
unfolding figment_merge clean_json cluster
holds cli none none none = (refl, refl, refl, (λ h. absurd (cc), λ (n, h). absurd (cc)))
holds cli none none (some _) = (refl, refl, refl, (λ h. absurd (cc), λ (n, h). absurd (cc)))
holds cli none (some id) none = (refl, refl, refl, (λ h. (id, refl), λ h. refl))
holds cli none (some id) (some _) = (refl, refl, refl, (λ h. (id, refl), λ h. refl))
holds cli (some _) none none = (refl, refl, refl, (λ h. absurd (cc), λ (n, h). absurd (cc)))
holds cli (some _) none (some _) = (refl, refl, refl, (λ h. absurd (cc), λ (n, h). absurd (cc)))
holds cli (some _) (some id) none = (refl, refl, refl, (λ h. (id, refl), λ h. refl))
holds cli (some _) (some id) (some _) = (refl, refl, refl, (λ h. (id, refl), λ h. refl))

-- The merged configuration holds the hostname, the raft id and the raft index exactly as they are given,
-- and names the cluster's type as raft exactly where the raft id is given.
pub figment_merge-cluster :
    (cli : SubcommandRun)
    → (get "hostname" (merged_server cli) ≡ text_of cli.hostname)
      × (get "id" (get "cluster" (merged_server cli)) ≡ number_of cli.raft_id)
      × (get "index" (get "cluster" (merged_server cli)) ≡ number_of cli.raft_index)
      × ((get "type" (get "cluster" (merged_server cli)) ≡ some (string "raft"))
          ↔ ((id : ℕ) × (cli.raft_id ≡ some id)))
figment_merge-cluster cli = holds cli cli.hostname cli.raft_id cli.raft_index
