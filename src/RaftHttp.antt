-- ===== src/RaftHttp.antt =====
-- raft_http.go: who serves a request (LeaderWriteMiddleware) and which calls between nodes are
-- heard (validateClusterHMAC). The handlers behind them and the proxy itself are input and output.
pub mod Routing
use agenda_distribuida.Prelude.{
  ℕ, Bool, true, false, not, ◌&&◌, ◌||◌, String, Option, none, some, List, str_eq, if◌then◌else◌,
}
use agenda_distribuida.Text.{has_prefix, is_blank}

-- What the middleware sees of the node: `none` where no consensus is wired, else whether it leads and
-- the leader it knows, blank for none.
pub record Standing : Type 0 where
  pub leads : Bool
  pub leader_id : String

pub data Route : Type 0 where
  preflight : Route
  local : Route
  proxied : String → Route

abbrev pub is_control : String → Bool
is_control path =
    has_prefix "/raft/" path
    || has_prefix "/cluster/" path
    || has_prefix "/ws" path
    || has_prefix "/ui/" path

abbrev pub is_entry : String → Bool
is_entry path = str_eq path "/register" || str_eq path "/login"

-- `resolve` is the resolver of leader addresses.
unfoldable pub route_wired : (String → String) → String → Standing → Route
route_wired resolve path s =
    if is_entry path && not s.leads && not (str_eq s.leader_id "")
    then proxied (resolve s.leader_id)
    else if s.leads
    then local
    else if has_prefix "/api/" path && not (str_eq s.leader_id "")
    then proxied (resolve s.leader_id)
    else local

unfoldable pub route : (String → String) → String → String → Option Standing → Route
route resolve method path standing =
    if str_eq method "OPTIONS"
    then preflight
    else if is_control path
    then local
    else elim standing [ none ↦ local | some s ↦ route_wired resolve path s ]

pub data Guard : Type 0 where
  pass : Guard
  refuse : ℕ → String → Guard

-- `hmac` computes the signature of a body under a secret. The secret is trimmed; only whether it is
-- blank matters to the guard beside its use as a key, so the trimmed secret is the argument.
unfoldable pub validate_cluster_hmac : (String → String → String) → String → String → String → Guard
validate_cluster_hmac hmac secret sig body =
    if str_eq secret ""
    then refuse 500 "cluster secret not configured"
    else if str_eq sig ""
    then refuse 401 "missing signature"
    else if str_eq (hmac body secret) sig
    then pass
    else refuse 401 "invalid signature"
