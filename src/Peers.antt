-- ===== src/Peers.antt =====
-- peers.go: the peers that a node knows, by id and address, and the leader it has seen.
-- A Go map has no order of its own; ListPeers gives the order of the table here.
pub mod Laws
use agenda_distribuida.Prelude.{
  String, Bool, ◌||◌, List, [], ◌∷◌, Option, none, some, Table, lookup, insert, delete, map, str_eq,
  if◌then◌else◌,
}

pub record EnvPeerStore : Type 0 where
  pub local_id : String
  pub peers : Table String
  pub leader : String

pub list_peers : EnvPeerStore → List String
list_peers p = map (λ entry. entry.0) p.peers

unfoldable pub set_leader : String → EnvPeerStore → EnvPeerStore
set_leader id p = record p { leader = id }

unfoldable pub resolve_addr : EnvPeerStore → String → String
resolve_addr p id = elim (lookup id p.peers) [ none ↦ id | some v ↦ if str_eq v "" then id else v ]

abbrev or_id : String → String → String
or_id id addr = if str_eq addr "" then id else addr

-- The loops of SetPeers and SetSnapshot write into an empty map.
identity_entries : String → List String → Table String → Table String
identity_entries own [] m = m
identity_entries own (id ∷ ids) m =
    identity_entries own ids (if str_eq id "" || str_eq id own then m else insert id id m)

copy_entries : String → Table String → Table String → Table String
copy_entries own [] m = m
copy_entries own ((id, addr) ∷ entries) m =
    copy_entries own entries
      (if str_eq id "" || str_eq id own then m else insert id (or_id id addr) m)

pub set_snapshot : Table String → EnvPeerStore → EnvPeerStore
set_snapshot entries p = record p { peers = copy_entries p.local_id entries [] }

pub set_peers : List String → EnvPeerStore → EnvPeerStore
set_peers ids p = set_snapshot (identity_entries p.local_id ids []) p

pub upsert_peer : String → String → EnvPeerStore → EnvPeerStore
upsert_peer id addr p =
    if str_eq id "" || str_eq id p.local_id
    then p
    else record p { peers = insert id (or_id id addr) p.peers }

pub remove_peer : String → EnvPeerStore → EnvPeerStore
remove_peer id p = if str_eq id "" then p else record p { peers = delete id p.peers }
