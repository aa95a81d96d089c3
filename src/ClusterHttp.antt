-- ===== src/ClusterHttp.antt =====
-- cluster_http.go: how a node joins and leaves the table of nodes, and what it lists for others. The
-- audit is left out.
pub mod Listing
pub mod Membership
use agenda_distribuida.Prelude.{
  ℕ, Bool, true, false, String, Option, none, some, List, str_eq, if◌then◌else◌,
}
use agenda_distribuida.Text.{is_blank}
use agenda_distribuida.Peers.{EnvPeerStore, upsert_peer, remove_peer}
use agenda_distribuida.RaftHttp.{Guard, pass, refuse}
use agenda_distribuida.ClusterNodes.{ClusterNode, NodeRow, upsert_cluster_node, remove_cluster_node}

pub record Cluster : Type 0 where
  pub nodes : List NodeRow
  pub peers : EnvPeerStore

pub record JoinRequest : Type 0 where
  pub node_id : String
  pub address : String
  pub source : String

-- A status code and a message for a refusal, and what is left; a join answers with all nodes.
abbrev pub Answered : Type 0
Answered = Option (ℕ × String) × Cluster

abbrev pub signed : Guard → Answered → Cluster → Answered
signed pass out c = out
signed (refuse code msg) out c = (some (code, msg), c)

-- `fallback` of discovery.go
abbrev pub fallback : String → String → String
fallback val def = if is_blank val then def else val

abbrev pub node_of : ℕ → String → JoinRequest → ClusterNode
node_of now id req = record {
  node_id = id;
  address = req.address;
  source = fallback req.source "gossip";
  last_seen = some now;
}

unfoldable pub join_node : ℕ → JoinRequest → Cluster → Answered
join_node now req c =
    let id : String = if str_eq req.node_id "" then req.address else req.node_id in
    let (err, nodes) = upsert_cluster_node now (node_of now id req) c.nodes in
    elim err [
      | some e ↦ (some (500, e), c)
      | none ↦ (none, record { nodes = nodes; peers = upsert_peer id req.address c.peers })
    ]

-- `bad_json` is the error of a body that does not decode.
unfoldable pub cluster_join : Guard → ℕ → String → Option JoinRequest → Cluster → Answered
unfolding join_node
cluster_join guard now bad_json none c = signed guard (some (400, bad_json), c) c
cluster_join guard now bad_json (some req) c =
    signed guard
      (if str_eq req.address ""
        then (some (400, "address is required"), c)
        else join_node now req c)
      c

unfoldable pub leave_node : String → Cluster → Answered
leave_node id c =
    let (err, nodes) = remove_cluster_node id c.nodes in
    elim err [
      | some e ↦ (some (500, e), c)
      | none ↦ (none, record { nodes = nodes; peers = remove_peer id c.peers })
    ]

unfoldable pub cluster_leave : Guard → String → Option String → Cluster → Answered
unfolding leave_node
cluster_leave guard bad_json none c = signed guard (some (400, bad_json), c) c
cluster_leave guard bad_json (some id) c =
    signed guard (if str_eq id "" then (some (400, "node_id is required"), c) else leave_node id c)
      c
