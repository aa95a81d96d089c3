-- ===== src/Peers/Laws.antt =====
-- What the operations on the peer table do to its lookups and ids.
use agenda_distribuida.Prelude.{
  String, some, false, ◌≡◌, refl, none, any, lookup, ◌||◌, List, [], ◌∷◌, All, Table, insert,
  delete, lookup-insert, lookup-delete, arith, str_eq, eq_iff, if◌then◌else◌,
}
use agenda_distribuida.Peers.{
  EnvPeerStore, or_id, copy_entries, identity_entries, set_snapshot, set_peers, upsert_peer,
  remove_peer, resolve_addr,
}

-- No row has a blank id, the node's own id or a blank address.
abbrev pub IsClean : String → Table String → Type 0
IsClean own =
    All (λ row. (str_eq row.0 "" ≡ false) × (str_eq row.0 own ≡ false) × (str_eq row.1 "" ≡ false))

insert-IsClean :
    (own id addr : String) (m : Table String)
    → str_eq id "" ≡ false
    → str_eq id own ≡ false
    → str_eq addr "" ≡ false
    → IsClean own m
    → IsClean own (insert id addr m)
unfolding insert
insert-IsClean own id addr [] a b c clean = ((a, b, c), tt)
insert-IsClean own id addr ((j, w) ∷ m) a b c clean =
    ground (arith, insert-IsClean own id addr m a b c clean.1)

delete-IsClean : (own id : String) (m : Table String) → IsClean own m → IsClean own (delete id m)
unfolding delete
delete-IsClean own id [] clean = tt
delete-IsClean own id ((j, w) ∷ m) clean = ground (arith, delete-IsClean own id m clean.1)

copy_entries-IsClean :
    (own : String) (entries m : Table String)
    → IsClean own m
    → IsClean own (copy_entries own entries m)
unfolding copy_entries
copy_entries-IsClean own [] m clean = clean
copy_entries-IsClean own ((id, addr) ∷ entries) m clean =
    copy_entries-IsClean own entries
      (if str_eq id "" || str_eq id own then m else insert id (or_id id addr) m)
      (ground (arith, insert-IsClean own id addr m, insert-IsClean own id id m))

-- Whatever entries or ids are handed over, SetSnapshot and SetPeers leave a table without blank ids,
-- without the node itself and without blank addresses.
pub set_snapshot-IsClean :
    (entries : Table String) (ids : List String) (p : EnvPeerStore)
    → IsClean p.local_id (set_snapshot entries p).peers × IsClean p.local_id (set_peers ids p).peers
unfolding set_snapshot set_peers
set_snapshot-IsClean entries ids p = (
  copy_entries-IsClean p.local_id entries [] tt,
  copy_entries-IsClean p.local_id (identity_entries p.local_id ids []) [] tt,
)

-- UpsertPeer and RemovePeer keep a table that way. An id that UpsertPeer takes resolves to the given
-- address, or to itself where none is given, every other id resolves as before, and an id that
-- RemovePeer takes out resolves to itself.
pub upsert_peer_lem :
    (id addr j : String) (p : EnvPeerStore)
    → IsClean p.local_id p.peers
    → str_eq id "" ≡ false
    → str_eq id p.local_id ≡ false
    → IsClean p.local_id (upsert_peer id addr p).peers
      × IsClean p.local_id (remove_peer id p).peers
      × (resolve_addr (upsert_peer id addr p) j
          ≡ (if str_eq id j then or_id id addr else resolve_addr p j))
      × (resolve_addr (remove_peer id p) id ≡ id)
unfolding upsert_peer remove_peer resolve_addr
upsert_peer_lem id addr j p clean named other = (
  ground (
    arith,
    insert-IsClean p.local_id id addr p.peers named other,
    insert-IsClean p.local_id id id p.peers named other named clean,
  ),
  ground (arith, delete-IsClean p.local_id id p.peers clean),
  ground (arith, lookup-insert id j addr p.peers, lookup-insert id j id p.peers, eq_iff id j),
  ground (arith, lookup-delete id id p.peers, eq_iff id id),
)

lookup-copy_entries :
    (own j : String) (entries m : Table String)
    → any (λ row. str_eq row.0 j) entries ≡ false
    → lookup j (copy_entries own entries m) ≡ lookup j m
unfolding copy_entries any
lookup-copy_entries own j [] m absent = refl
lookup-copy_entries own j ((id, addr) ∷ entries) m absent = ground (
  arith,
  lookup-copy_entries own j entries
      (if str_eq id "" || str_eq id own then m else insert id (or_id id addr) m),
  lookup-insert id j addr m,
  lookup-insert id j id m,
)

-- An id that no entry names is not in the table afterwards.
pub lookup-set_snapshot :
    (j : String) (entries : Table String) (p : EnvPeerStore)
    → any (λ row. str_eq row.0 j) entries ≡ false
    → lookup j (set_snapshot entries p).peers ≡ none
unfolding set_snapshot lookup
lookup-set_snapshot j entries p absent = lookup-copy_entries p.local_id j entries [] absent

pub lookup-upsert_peer :
    (id addr : String) (p : EnvPeerStore)
    → str_eq id "" ≡ false
    → str_eq id p.local_id ≡ false
    → str_eq addr "" ≡ false
    → lookup id (upsert_peer id addr p).peers ≡ some addr
unfolding upsert_peer
lookup-upsert_peer id addr p named other addressed =
    ground (arith, named, other, addressed, lookup-insert id id addr p.peers, eq_iff id id)

pub lookup-remove_peer :
    (id : String) (p : EnvPeerStore)
    → str_eq id "" ≡ false
    → lookup id (remove_peer id p).peers ≡ none
unfolding remove_peer
lookup-remove_peer id p named = ground (arith, named, lookup-delete id id p.peers, eq_iff id id)
