-- ===== src/ClusterHttp/Membership.antt =====
-- Joining and leaving.
use agenda_distribuida.Prelude.{
  ℕ, ◌≡◌, refl, false, not, String, none, some, List, [], ◌∷◌, str_eq, eq_iff, arith, lookup, keep,
  find,
}
use agenda_distribuida.Peers.Laws.{lookup-upsert_peer, lookup-remove_peer}
use agenda_distribuida.RaftHttp.{pass}
use agenda_distribuida.ClusterNodes.{
  NodeRow, is_node, last_seen_of, row_of_node, upsert_cluster_node, remove_cluster_node,
}
use agenda_distribuida.Discovery.Partition.{last_seen-upsert}
use agenda_distribuida.ClusterHttp.{Cluster, JoinRequest, cluster_join, cluster_leave, node_of}

last_seen-removed :
    (id : String) (rows : List NodeRow)
    → last_seen_of id (keep (λ r. not (is_node id r)) rows) ≡ none
unfolding last_seen_of find
last_seen-removed id [] = refl
last_seen-removed id (r ∷ rows) = ground (arith, last_seen-removed id rows)

joined :
    (now : ℕ) (bad : String) (req : JoinRequest) (c : Cluster)
    → str_eq req.address "" ≡ false
    → str_eq req.node_id "" ≡ false
    → str_eq req.node_id c.peers.local_id ≡ false
    → ((cluster_join pass now bad (some req) c).0 ≡ none)
      × (last_seen_of req.node_id (cluster_join pass now bad (some req) c).1.nodes ≡ some now)
      × (lookup req.node_id (cluster_join pass now bad (some req) c).1.peers.peers
          ≡ some req.address)
unfolding cluster_join upsert_cluster_node
joined now bad req c addressed named other =
    let row = row_of_node now (node_of now req.node_id req) in
    ground (
      arith,
      addressed,
      named,
      lookup-upsert_peer req.node_id req.address c.peers named other addressed,
      last_seen-upsert row req.node_id c.nodes,
      eq_iff req.node_id req.node_id,
    )

left :
    (bad id : String) (c : Cluster)
    → str_eq id "" ≡ false
    → ((cluster_leave pass bad (some id) c).0 ≡ none)
      × (last_seen_of id (cluster_leave pass bad (some id) c).1.nodes ≡ none)
      × (lookup id (cluster_leave pass bad (some id) c).1.peers.peers ≡ none)
unfolding cluster_leave remove_cluster_node
left bad id c named =
    ground (arith, named, last_seen-removed id c.nodes, lookup-remove_peer id c.peers named)

abbrev pub after_join : ℕ → String → JoinRequest → Cluster → Cluster
after_join now bad req c = (cluster_join pass now bad (some req) c).1

abbrev pub after_leave : String → String → Cluster → Cluster
after_leave bad id c = (cluster_leave pass bad (some id) c).1

-- A signed request of another node that names it and its address is granted: the node is in the table
-- as seen just now, and a peer at that address. When it leaves, whatever came before, it is neither
-- in the table nor a peer.
pub joins_and_leaves :
    (now : ℕ) (bad : String) (req : JoinRequest) (c between : Cluster)
    → str_eq req.address "" ≡ false
    → str_eq req.node_id "" ≡ false
    → str_eq req.node_id c.peers.local_id ≡ false
    → ((cluster_join pass now bad (some req) c).0 ≡ none)
      × (last_seen_of req.node_id (after_join now bad req c).nodes ≡ some now)
      × (lookup req.node_id (after_join now bad req c).peers.peers ≡ some req.address)
      × (last_seen_of req.node_id (after_leave bad req.node_id between).nodes ≡ none)
      × (lookup req.node_id (after_leave bad req.node_id between).peers.peers ≡ none)
joins_and_leaves now bad req c between addressed named other =
    let (granted, seen, peer) = joined now bad req c addressed named other in
    let (removed, unseen, gone) = left bad req.node_id between named in
    (granted, seen, peer, unseen, gone)
