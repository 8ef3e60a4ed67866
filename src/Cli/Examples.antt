-- ===== src/Cli/Examples.antt =====
-- The theorems about the command line at an example.
use overlay_mcp.Base.{◌≡◌, refl, ◌↔◌, ℕ, true, false, none, some}
use overlay_mcp.Core.Json.{number, string, pos_int}
use overlay_mcp.Cli.{SubcommandRun, clean_json, cluster, figment_merge}
use overlay_mcp.Cli.Clean.{IsClean, clean_json-IsClean}
use overlay_mcp.Cli.Merge.{get, merged_server, figment_merge-cluster}

abbrev pub index_only : SubcommandRun
index_only = record {
  log_filter = "warn";
  prometheus = false;
  health_check = true;
  raft_id = none;
  raft_index = some 2;
  addr = "0.0.0.0:9090";
  hostname = none;
  upstream = some "http://mcp";
  endpoint = none;
  issuer = none;
  client_id = none;
  client_secret = none;
  scopes = none;
}

figment_merge-cluster_example :
    (get "hostname" (merged_server index_only) ≡ none)
    × (get "id" (get "cluster" (merged_server index_only)) ≡ none)
    × (get "index" (get "cluster" (merged_server index_only)) ≡ some (number (pos_int 2)))
    × ((get "type" (get "cluster" (merged_server index_only)) ≡ some (string "raft"))
        ↔ ((id : ℕ) × (index_only.raft_id ≡ some id)))
figment_merge-cluster_example = figment_merge-cluster index_only

clean_json-IsClean_example : IsClean (clean_json (figment_merge index_only))
clean_json-IsClean_example = clean_json-IsClean (figment_merge index_only)

-- Of the options that are not given, nothing is merged.
nothing_for_auth : get "auth" (some (figment_merge index_only)) ≡ none
unfolding figment_merge clean_json cluster
nothing_for_auth = refl
