-- ===== src/ClusterNodes.antt =====
-- The table `cluster_nodes`: its operations in storage.go. Times are nanoseconds; a Go time that is
-- zero is `none`.
use agenda_distribuida.Prelude.{
  ℕ, Bool, not, String, Option, none, some, List, [], ◌∷◌, keep, find, str_eq, if◌then◌else◌,
}

pub record ClusterNode : Type 0 where
  pub node_id : String
  pub address : String
  pub source : String
  pub last_seen : Option ℕ

pub record NodeRow : Type 0 where
  pub node_id : String
  pub address : String
  pub source : String
  pub last_seen : ℕ

abbrev pub is_node : String → NodeRow → Bool
is_node id r = str_eq r.node_id id

-- `ON CONFLICT(node_id) DO UPDATE`
unfoldable pub upsert_row : NodeRow → List NodeRow → List NodeRow
upsert_row row [] = row ∷ []
upsert_row row (r ∷ rs) = if str_eq r.node_id row.node_id then row ∷ rs else r ∷ upsert_row row rs

abbrev pub row_of_node : ℕ → ClusterNode → NodeRow
row_of_node now n = record {
  node_id = n.node_id;
  address = if str_eq n.address "" then n.node_id else n.address;
  source = n.source;
  last_seen = elim n.last_seen [ none ↦ now | some t ↦ t ];
}

unfoldable pub upsert_cluster_node : ℕ → ClusterNode → List NodeRow → Option String × List NodeRow
upsert_cluster_node now n rows =
    if str_eq n.node_id ""
    then (some "empty node id", rows)
    else (none, upsert_row (row_of_node now n) rows)

unfoldable pub remove_cluster_node : String → List NodeRow → Option String × List NodeRow
remove_cluster_node id rows =
    if str_eq id ""
    then (some "empty node id", rows)
    else (none, keep (λ r. not (is_node id r)) rows)

-- `last_seen` of a node in the table.
unfoldable pub last_seen_of : String → List NodeRow → Option ℕ
last_seen_of id rows = elim (find (is_node id) rows) [ none ↦ none | some r ↦ some r.last_seen ]
