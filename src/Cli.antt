-- ===== src/Cli.antt =====
-- crates/overlay-mcp-cli/src/utils.rs and command.rs, and `figment_merge` of run.rs: the configuration
-- that the command line stands for.
pub mod Clean
pub mod Merge
pub mod Run
pub mod Examples
use overlay_mcp.Base.{String, ℕ, Bool, true, false, Option, none, some, List, [], ◌∷◌}
use overlay_mcp.Core.Json.{
  Value, null, bool, number, string, array, object, Number, pos_int, Items, nil, cons, Fields, end,
  field,
}

-- What `clean_json` leaves out of an object.
abbrev pub is_blank : Value → Bool
is_blank null = true
is_blank (object end) = true
is_blank _ = false

-- `filter_map` on one entry, where `rest` is what the later entries leave.
abbrev pub keep_entry : String → Value → Fields → Fields
keep_entry k (null) rest = rest
keep_entry k (object end) rest = rest
keep_entry k v rest = field k v rest

unfoldable mutual
  pub clean_json : Value → Value
  clean_json (object map) = object (clean_fields map)
  clean_json (array arr) = array (clean_items arr)
  clean_json null = null
  clean_json (bool b) = bool b
  clean_json (number n) = number n
  clean_json (string s) = string s

  pub clean_items : Items → Items
  clean_items nil = nil
  clean_items (cons v arr) = cons (clean_json v) (clean_items arr)

  pub clean_fields : Fields → Fields
  clean_fields end = end
  clean_fields (field k v map) = keep_entry k (clean_json v) (clean_fields map)

-- The part of clap's parse of the command line that the configuration reads; an address or a URL is its
-- text.
pub record SubcommandRun : Type 0 where
  pub log_filter : String
  pub prometheus : Bool
  pub health_check : Bool
  pub raft_id : Option ℕ
  pub raft_index : Option ℕ
  pub addr : String
  pub hostname : Option String
  pub upstream : Option String
  pub endpoint : Option String
  pub issuer : Option String
  pub client_id : Option String
  pub client_secret : Option String
  pub scopes : Option (List String)

-- `json!` of an optional text, a list of texts and a number.
abbrev pub json_str : Option String → Value
json_str none = null
json_str (some s) = string s

abbrev strings : List String → Items
strings [] = nil
strings (s ∷ ss) = cons (string s) (strings ss)

abbrev json_strs : Option (List String) → Value
json_strs none = null
json_strs (some ss) = array (strings ss)

abbrev json_num : ℕ → Value
json_num n = number (pos_int n)

-- `cluster`, whose map keeps its keys in order.
unfoldable pub cluster : (raft_id raft_index : Option ℕ) → Fields
cluster none none = end
cluster none (some index) = field "index" (json_num index) end
cluster (some id) none = field "id" (json_num id) (field "type" (string "raft") end)
cluster (some id) (some index) =
    field "id" (json_num id) (field "index" (json_num index) (field "type" (string "raft") end))

-- `if !cluster.is_empty() { server_config["cluster"] = … }`
abbrev pub cluster_entry : Fields → Fields
cluster_entry end = end
cluster_entry fs = field "cluster" (object fs) end

abbrev pub upstream_config : Option String → Value
upstream_config none = null
upstream_config (some url) = object (field "urls" (array (cons (string url) nil)) end)

abbrev entry_of : String → Value → Fields
entry_of k v = field k v end

abbrev pub auth_config : SubcommandRun → Value
auth_config cli =
    let client =
      field "id" (json_str cli.client_id)
        (field "secret" (json_str cli.client_secret) (entry_of "scopes" (json_strs cli.scopes))) in
    let jwt = field "issuer" (json_str cli.issuer) (entry_of "client" (object client)) in
    object (entry_of "authn" (object (entry_of "jwt" (object jwt))))

abbrev pub server_config : SubcommandRun → Value
server_config cli = object (
    field "addr" (string cli.addr) (
      field "hostname" (json_str cli.hostname)
        (cluster_entry (cluster cli.raft_id cli.raft_index))))

-- Figment takes the value up, over the configuration file.
unfoldable pub figment_merge : SubcommandRun → Value
figment_merge cli =
    let application = field "log_filter" (string cli.log_filter) (
      field "prometheus" (bool cli.prometheus) (entry_of "health_check" (bool cli.health_check))) in
    clean_json (
      object (
        field "application" (object application) (
          field "server" (server_config cli) (
            field "upstream" (upstream_config cli.upstream) (
              field "auth" (auth_config cli)
                (entry_of "otel" (object (entry_of "endpoint" (json_str cli.endpoint)))))))))
