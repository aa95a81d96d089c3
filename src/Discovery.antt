-- ===== src/Discovery.antt =====
-- discovery.go and heartbeat.go: how a node learns of others, and which of them are its peers. The
-- loops' tickers, DNS and HTTP are left out: a round is a function of what they brought. Errors of
-- UpsertClusterNode are dropped, as there.
pub mod Partition
use agenda_distribuida.Prelude.{
  ℕ, ◌-◌, Bool, true, false, ◌||◌, String, ◌^^◌, Option, none, some, List, [], ◌∷◌, Table, insert,
  ltb, str_eq, if◌then◌else◌,
}
use agenda_distribuida.Peers.{EnvPeerStore, set_snapshot, set_leader, resolve_addr}
use agenda_distribuida.ClusterNodes.{
  ClusterNode, NodeRow, upsert_row, upsert_cluster_node, last_seen_of,
}

pub record DiscoveryManager : Type 0 where
  pub local_id : String
  pub advertise_addr : String
  pub max_peer_age : ℕ

-- `2 * time.Minute`, in nanoseconds
abbrev pub two_minutes : ℕ
two_minutes = 120000000000

abbrev pub thirty_seconds : ℕ
thirty_seconds = 30000000000

abbrev pub upsert_dropping : ℕ → ClusterNode → List NodeRow → List NodeRow
upsert_dropping now n rows = (upsert_cluster_node now n rows).1

-- One round of dnsLoop or dockerDNSLoop, on the addresses that were looked up.
unfoldable pub register_hosts :
    DiscoveryManager → ℕ → String → String → List String → List NodeRow → List NodeRow
register_hosts d now prefix source [] rows = rows
register_hosts d now prefix source (addr ∷ addrs) rows = register_hosts d now prefix source addrs (
    if str_eq addr d.advertise_addr
    then rows
    else upsert_dropping now
        (record { node_id = prefix ^^ addr; address = addr; source = source; last_seen = some now })
        rows)

-- The time for a node that a seed reports: the known one stays; a new node without one gets an old
-- one.
unfoldable pub reported_time : ℕ → List NodeRow → ClusterNode → ℕ
reported_time now known n = elim (last_seen_of n.node_id known) [
  | some t ↦ t
  | none ↦ elim n.last_seen [ some t ↦ t | none ↦ now - two_minutes ]
]

-- The nodes of a seed's answer; `known` are the rows before the first of them.
unfoldable pub merge_reported : ℕ → List NodeRow → List ClusterNode → List NodeRow → List NodeRow
merge_reported now known [] rows = rows
merge_reported now known (n ∷ ns) rows = merge_reported now known ns (
    upsert_dropping now
      (record {
        node_id = n.node_id;
        address = n.address;
        source = "gossip";
        last_seen = some (reported_time now known n);
      })
      rows)

-- One seed's answer in announceToSeeds: none if the call failed, none inside if it does not decode.
unfoldable pub take_seed :
    ℕ → String → Option (Option (List ClusterNode)) → List NodeRow → List NodeRow
take_seed now seed_addr none rows = rows
take_seed now seed_addr (some answer) rows =
    let seen : List NodeRow =
      upsert_dropping now
        (record { node_id = seed_addr; address = seed_addr; source = "seed"; last_seen = some now })
        rows in
    elim answer [ none ↦ seen | some nodes ↦ merge_reported now seen nodes seen ]

unfoldable pub consensus_max_age : DiscoveryManager → ℕ
consensus_max_age d = if ltb d.max_peer_age thirty_seconds then d.max_peer_age else thirty_seconds

abbrev pub is_stale : DiscoveryManager → ℕ → NodeRow → Bool
is_stale d now r = ltb (consensus_max_age d) (now - r.last_seen)

abbrev pub is_self : DiscoveryManager → NodeRow → Bool
is_self d r = str_eq r.node_id d.local_id || str_eq r.address d.advertise_addr

unfoldable pub recent_nodes : DiscoveryManager → ℕ → List NodeRow → Table String → Table String
recent_nodes d now [] snapshot = snapshot
recent_nodes d now (r ∷ rs) snapshot = recent_nodes d now rs (
    if is_self d r || is_stale d now r
    then snapshot
    else insert r.node_id (if str_eq r.address "" then r.node_id else r.address) snapshot)

unfoldable pub update_peers_from_storage :
    DiscoveryManager → ℕ → List NodeRow → EnvPeerStore → EnvPeerStore
update_peers_from_storage d now rows p = set_snapshot (recent_nodes d now rows []) p

-- One tick of StartHeartbeats: for each peer in turn, none if the call failed, else whether it says
-- that it leads. The first that does ends the round.
unfoldable pub poll_peers :
    ℕ → List (String × Option Bool) → List NodeRow → EnvPeerStore → List NodeRow × EnvPeerStore
poll_peers now [] rows p = (rows, p)
poll_peers now ((id, answer) ∷ rest) rows p = elim answer [
  | none ↦ poll_peers now rest rows p
  | some leads ↦
      let seen : List NodeRow =
        if str_eq id "" || str_eq id p.local_id
        then rows
        else upsert_dropping now
            (record {
              node_id = id;
              address = resolve_addr p id;
              source = "heartbeat";
              last_seen = some now;
            })
            rows in
      elim leads [ true ↦ (seen, set_leader id p) | false ↦ poll_peers now rest seen p ]
]
