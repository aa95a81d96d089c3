-- ===== src/Discovery/Partition.antt =====
-- What a seed's answer does to a node that the table has only old rows of.
use agenda_distribuida.Prelude.{
  ℕ, ◌-◌, ◌≡◌, refl, sym, subst, ◌∙◌, Bool, true, false, not, ◌||◌, ◌&&◌, String, Option, none,
  some, List, [], ◌∷◌, Table, lookup, insert, lookup-insert, find, any, ltb, str_eq, eq_iff, arith,
  if◌then◌else◌,
}
use agenda_distribuida.Peers.{EnvPeerStore}
use agenda_distribuida.Peers.Laws.{lookup-set_snapshot}
use agenda_distribuida.ClusterNodes.{
  ClusterNode, NodeRow, is_node, row_of_node, upsert_row, upsert_cluster_node, last_seen_of,
}
use agenda_distribuida.Discovery.{
  DiscoveryManager, upsert_dropping, reported_time, merge_reported, take_seed, consensus_max_age,
  is_stale, is_self, recent_nodes, update_peers_from_storage,
}

-- No row of the node was seen lately.
unfoldable pub unseen : DiscoveryManager → ℕ → String → List NodeRow → Bool
unseen d now id [] = true
unseen d now id (r ∷ rs) = (not (is_node id r) || is_stale d now r) && unseen d now id rs

pub last_seen-upsert :
    (row : NodeRow) (id : String) (rows : List NodeRow)
    → last_seen_of id (upsert_row row rows)
      ≡ (if str_eq row.node_id id then some row.last_seen else last_seen_of id rows)
unfolding last_seen_of upsert_row find
last_seen-upsert row id [] = ground arith
last_seen-upsert row id (r ∷ rs) = ground (
  arith,
  last_seen-upsert row id rs,
  eq_iff r.node_id row.node_id,
  eq_iff r.node_id id,
  eq_iff row.node_id id,
)

last_seen-other :
    (now : ℕ) (n : ClusterNode) (id : String) (rows : List NodeRow) (t : ℕ)
    → str_eq n.node_id id ≡ false
    → last_seen_of id rows ≡ some t
    → last_seen_of id (upsert_dropping now n rows) ≡ some t
unfolding upsert_cluster_node
last_seen-other now n id rows t other h =
    ground (arith, last_seen-upsert (row_of_node now n) id rows, other, h)

unseen-upsert :
    (d : DiscoveryManager) (now : ℕ) (id : String) (row : NodeRow) (rows : List NodeRow)
    → (not (is_node id row) || is_stale d now row) ≡ true
    → unseen d now id rows ≡ true
    → unseen d now id (upsert_row row rows) ≡ true
unfolding unseen upsert_row
unseen-upsert d now id row [] h k = ground arith
unseen-upsert d now id row (r ∷ rs) h k = ground (arith, unseen-upsert d now id row rs h)

unseen-last_seen :
    (d : DiscoveryManager) (now : ℕ) (id : String) (t : ℕ) (rows : List NodeRow)
    → unseen d now id rows ≡ true
    → last_seen_of id rows ≡ some t
    → ltb (consensus_max_age d) (now - t) ≡ true
unfolding unseen last_seen_of find
unseen-last_seen d now id t [] h k = cc
unseen-last_seen d now id t (r ∷ rs) h k = ground (arith, unseen-last_seen d now id t rs)

recent_nodes-unseen :
    (d : DiscoveryManager) (now : ℕ) (id : String) (rows : List NodeRow) (s : Table String)
    → unseen d now id rows ≡ true
    → lookup id (recent_nodes d now rows s) ≡ lookup id s
unfolding unseen recent_nodes
recent_nodes-unseen d now id [] s h = refl
recent_nodes-unseen d now id (r ∷ rs) s h =
    let step : Table String =
      if is_self d r || is_stale d now r
      then s
      else insert r.node_id (if str_eq r.address "" then r.node_id else r.address) s in
    recent_nodes-unseen d now id rs step (ground arith)
    ∙ ground (
      arith,
      lookup-insert r.node_id id (if str_eq r.address "" then r.node_id else r.address) s,
      eq_iff r.node_id id,
    )

unseen-dropping :
    (d : DiscoveryManager) (now : ℕ) (id : String) (n : ClusterNode) (u : ℕ) (rows : List NodeRow)
    → n.last_seen ≡ some u
    → (not (str_eq n.node_id id) || ltb (consensus_max_age d) (now - u)) ≡ true
    → unseen d now id rows ≡ true
    → unseen d now id (upsert_dropping now n rows) ≡ true
unfolding upsert_cluster_node
unseen-dropping d now id n u rows is h k =
    let stale = unseen-upsert d now id (row_of_node now n) rows (ground (arith, is, h)) k in
    ground (arith, stale)

time_kept :
    (now : ℕ) (known : List NodeRow) (n : ClusterNode) (id : String) (t : ℕ)
    → last_seen_of id known ≡ some t
    → str_eq n.node_id id ≡ true
    → reported_time now known n ≡ t
unfolding reported_time
time_kept now known n id t h same =
    let here = subst (λ x. last_seen_of x known ≡ some t) (sym ((eq_iff n.node_id id).0 same)) h in
    ground (arith, here)

unseen-merge :
    (d : DiscoveryManager) (now : ℕ) (known : List NodeRow) (nodes : List ClusterNode)
    (rows : List NodeRow) (id : String) (t : ℕ)
    → last_seen_of id known ≡ some t
    → ltb (consensus_max_age d) (now - t) ≡ true
    → unseen d now id rows ≡ true
    → unseen d now id (merge_reported now known nodes rows) ≡ true
unfolding merge_reported
unseen-merge d now known [] rows id t h q k = k
unseen-merge d now known (n ∷ ns) rows id t h q k =
    let u = reported_time now known n in
    let heard : ClusterNode = record {
      node_id = n.node_id;
      address = n.address;
      source = "gossip";
      last_seen = some u;
    } in
    unseen-merge d now known ns (upsert_dropping now heard rows) id t h q (
      unseen-dropping d now id heard u rows refl (ground (arith, time_kept now known n id t h, q))
        k)

abbrev seed_itself : ℕ → String → ClusterNode
seed_itself now seed_addr = record {
  node_id = seed_addr;
  address = seed_addr;
  source = "seed";
  last_seen = some now;
}

seed-unseen :
    (d : DiscoveryManager) (now : ℕ) (seed_addr : String) (rows : List NodeRow) (id : String)
    → str_eq seed_addr id ≡ false
    → unseen d now id rows ≡ true
    → unseen d now id (upsert_dropping now (seed_itself now seed_addr) rows) ≡ true
seed-unseen d now seed_addr rows id other k =
    unseen-dropping d now id (seed_itself now seed_addr) now rows refl (ground (arith, other)) k

unseen-take_seed :
    (d : DiscoveryManager) (now : ℕ) (seed_addr : String)
    (answer : Option (Option (List ClusterNode))) (rows : List NodeRow) (id : String) (t : ℕ)
    → str_eq seed_addr id ≡ false
    → last_seen_of id rows ≡ some t
    → unseen d now id rows ≡ true
    → unseen d now id (take_seed now seed_addr answer rows) ≡ true
unfolding take_seed
unseen-take_seed d now seed_addr none rows id t other h k = k
unseen-take_seed d now seed_addr (some none) rows id t other h k =
    seed-unseen d now seed_addr rows id other k
unseen-take_seed d now seed_addr (some (some nodes)) rows id t other h k =
    let seed = seed_itself now seed_addr in
    let seen = upsert_dropping now seed rows in
    unseen-merge d now seen nodes seen id t (last_seen-other now seed id rows t other h)
      (unseen-last_seen d now id t rows k h) (seed-unseen d now seed_addr rows id other k)

absent :
    (id : String) (s : Table String) → lookup id s ≡ none → any (λ row. str_eq row.0 id) s ≡ false
unfolding lookup any
absent id [] h = refl
absent id (row ∷ rows) h = ground (arith, absent id rows)

-- A node of the table of nodes whose every row is older than the consensus allows is no peer after
-- any answer of a seed that has another name, whatever the answer says of the node, and the update
-- of the peers that follows.
pub hearsay_makes_no_peer :
    (d : DiscoveryManager) (now : ℕ) (seed_addr : String)
    (answer : Option (Option (List ClusterNode))) (rows : List NodeRow) (p : EnvPeerStore)
    (id : String) (t : ℕ)
    → str_eq seed_addr id ≡ false
    → last_seen_of id rows ≡ some t
    → unseen d now id rows ≡ true
    → lookup id (update_peers_from_storage d now (take_seed now seed_addr answer rows) p).peers
      ≡ none
unfolding update_peers_from_storage lookup
hearsay_makes_no_peer d now seed_addr answer rows p id t other h k =
    let after = take_seed now seed_addr answer rows in
    let left =
      recent_nodes-unseen d now id after []
        (unseen-take_seed d now seed_addr answer rows id t other h k) in
    lookup-set_snapshot id (recent_nodes d now after []) p
      (absent id (recent_nodes d now after []) left)
