-- ===== src/Groups.antt =====
-- The tables `groups` and `group_members`, and what the operations on them do to `appointments` and
-- `participants`: the groups' part of storage.go, and its operations in raft_apply.go.
-- SQLite's answers are those of tables with the keys of `migrate`; other failures of the database
-- are left out, and so are the columns that no operation here reads; Recording has the events. Ranks are
-- natural numbers: the source only compares them. The payloads come in decoded.
pub mod Laws
pub mod Deletion
use Prim.Native.Nat.{Ordering}
use Prim.Native.String
use agenda_distribuida.Prelude.{
  ℕ, Bool, true, false, not, ◌&&◌, String, Option, none, some, List, [], ◌∷◌, ◌++◌, map, keep, find,
  any, ltb, str_eq, if◌then◌else◌,
}
use agenda_distribuida.Text.{contains, is_blank}
use agenda_distribuida.Ids.{Digest, group_id_from_signature}
use agenda_distribuida.Users.{unique_error}

pub record Group : Type 0 where
  pub id : String
  pub name : String
  pub description : String
  pub creator_id : String
  pub creator_username : String
  pub group_type : String

pub record GroupMember : Type 0 where
  pub group_id : String
  pub user_id : String
  pub rank : ℕ
  pub added_by : Option String

-- Times are Unix seconds, as the table keeps them.
pub record Appointment : Type 0 where
  pub id : String
  pub title : String
  pub description : String
  pub owner_id : String
  pub group_id : Option String
  pub start_ts : ℕ
  pub end_ts : ℕ
  pub privacy : String
  pub status : String
  pub version : ℕ
  pub origin_node : String
  pub deleted : Bool

pub record Participant : Type 0 where
  pub id : String
  pub appointment_id : String
  pub user_id : String
  pub status : String
  pub is_optional : Bool

pub record GroupTables : Type 0 where
  pub groups : List Group
  pub members : List GroupMember
  pub appointments : List Appointment
  pub participants : List Participant

abbrev pub group_type_non_hierarchical : String
group_type_non_hierarchical = "non_hierarchical"

abbrev pub is_member : String → String → GroupMember → Bool
is_member gid uid m = str_eq m.group_id gid && str_eq m.user_id uid

abbrev pub in_group : String → Appointment → Bool
in_group gid a = elim a.group_id [ none ↦ false | some g ↦ str_eq g gid ]

-- `appointment_id IN (SELECT id FROM appointments WHERE group_id=?)`
unfoldable pub of_group : String → GroupTables → Participant → Bool
of_group gid t p = any (λ a. in_group gid a && str_eq a.id p.appointment_id) t.appointments

unfoldable pub get_group_by_id : String → GroupTables → Option Group
get_group_by_id id t = find (λ g. str_eq g.id id) t.groups

abbrev has_group_signature : String → String → String → Group → Bool
has_group_signature name creator type g =
    str_eq g.name name && str_eq g.creator_id creator && str_eq g.group_type type

-- The id of a group, or "".
unfoldable pub find_group_by_signature : String → String → String → GroupTables → String
find_group_by_signature name creator type t =
    elim (find (has_group_signature name creator type) t.groups) [ none ↦ "" | some g ↦ g.id ]

unfoldable pub get_member_rank : String → String → GroupTables → Option ℕ
get_member_rank gid uid t = elim (find (is_member gid uid) t.members) [
  | none ↦ none
  | some m ↦ some m.rank
]

unfoldable pub is_superior : String → String → String → GroupTables → Option Bool
is_superior gid a b t = elim (get_member_rank gid a t) [
  | none ↦ none
  | some rank_a ↦ elim (get_member_rank gid b t) [
    | none ↦ none
    | some rank_b ↦ some (ltb rank_b rank_a)
  ]
]

unfoldable pub get_group_members : String → GroupTables → List GroupMember
get_group_members gid t = keep (λ m. str_eq m.group_id gid) t.members

-- `INSERT OR REPLACE`: the row with the key goes, the new one comes.
unfoldable pub add_group_member : String → String → ℕ → Option String → GroupTables → GroupTables
add_group_member gid uid rank added_by t = record t {
  members =
      keep (λ m. not (is_member gid uid m)) t.members
      ++ (record { group_id = gid; user_id = uid; rank = rank; added_by = added_by } ∷ []);
}

unfoldable pub ensure_group_member : String → String → ℕ → Option String → GroupTables → GroupTables
unfolding add_group_member
ensure_group_member gid uid rank added_by t = add_group_member gid uid rank added_by t

unfoldable pub update_group_member : String → String → ℕ → GroupTables → GroupTables
update_group_member gid uid rank t = record t {
  members = map (λ m. if is_member gid uid m then (record m { rank = rank }) else m) t.members;
}

-- A transaction: an error leaves the tables as they were.
unfoldable pub remove_group_member : String → String → GroupTables → Option String × GroupTables
remove_group_member gid uid t =
    if any (is_member gid uid) t.members
    then (
      none,
      record t {
        members = keep (λ m. not (is_member gid uid m)) t.members;
        participants = keep (λ p. not (str_eq p.user_id uid && of_group gid t p)) t.participants;
      },
    )
    else (some "member not found in group", t)

unfoldable pub delete_group : String → GroupTables → GroupTables
delete_group gid t = record {
  groups = keep (λ g. not (str_eq g.id gid)) t.groups;
  members = keep (λ m. not (str_eq m.group_id gid)) t.members;
  appointments = keep (λ a. not (in_group gid a)) t.appointments;
  participants = keep (λ p. not (of_group gid t p)) t.participants;
}

unfoldable pub update_group : Group → GroupTables → GroupTables
update_group g t = record t {
  groups =
      map
        (λ r.
          if str_eq r.id g.id then (record r { name = g.name; description = g.description }) else r)
        t.groups;
}

unfoldable pub with_group_id : Digest → Group → Group
with_group_id d g =
    if is_blank g.id
    then (record g { id = group_id_from_signature d g.group_type g.creator_username g.name })
    else g

unfoldable pub create_group : Digest → Group → GroupTables → Option String × Group × GroupTables
create_group d g t =
    if any (λ r. str_eq r.id (with_group_id d g).id) t.groups
    then (some unique_error, with_group_id d g, t)
    else (none, with_group_id d g, record t { groups = t.groups ++ (with_group_id d g ∷ []) })

abbrev group_name_after : Group → Group → Bool
group_name_after a b = elim (Prim.Native.String.compare a.name b.name) [
  | Ordering.gt ↦ true
  | _ ↦ false
]

unfoldable pub insert_by_group_name : Group → List Group → List Group
insert_by_group_name g [] = g ∷ []
insert_by_group_name g (x ∷ xs) =
    if group_name_after g x then x ∷ insert_by_group_name g xs else g ∷ x ∷ xs

-- `ORDER BY g.name ASC`
unfoldable pub order_by_group_name : List Group → List Group
order_by_group_name [] = []
order_by_group_name (g ∷ gs) = insert_by_group_name g (order_by_group_name gs)

-- The key of group_members holds a user once to a group.
unfoldable pub get_groups_for_user : String → GroupTables → List Group
get_groups_for_user uid t =
    order_by_group_name (keep (λ g. any (is_member g.id uid) t.members) t.groups)
