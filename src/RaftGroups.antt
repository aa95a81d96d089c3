-- ===== src/RaftGroups.antt =====
-- The operations of NewRaftApplier in raft_apply.go on groups, their payloads decoded.
pub mod Idempotent
use agenda_distribuida.Prelude.{ℕ, String, Option, none, some, str_eq, if◌then◌else◌}
use agenda_distribuida.Text.{contains}
use agenda_distribuida.Ids.{Digest, group_id_from_signature}
use agenda_distribuida.Users.{unique_error}
use agenda_distribuida.Groups.{
  Group, GroupTables, group_type_non_hierarchical, get_group_by_id, create_group, update_group,
  delete_group, add_group_member, update_group_member, remove_group_member, ensure_group_member,
}

pub record GroupCreate : Type 0 where
  pub name : String
  pub description : String
  pub creator_id : String
  pub creator_user : String
  pub group_type : String

abbrev pub new_group : GroupCreate → Group
new_group p = record {
  id = "";
  name = p.name;
  description = p.description;
  creator_id = p.creator_id;
  creator_username = p.creator_user;
  group_type = p.group_type;
}

abbrev pub owner_rank : String → ℕ
owner_rank group_type = if str_eq group_type group_type_non_hierarchical then 0 else 5

unfoldable pub insert_group : Digest → GroupCreate → GroupTables → Option String × GroupTables
insert_group d p t =
    let (err, g, t') = create_group d (new_group p) t in
    elim err [
      | none ↦ (none, add_group_member g.id p.creator_id (owner_rank p.group_type) none t')
      | some msg ↦ if contains msg unique_error then (none, t') else (some msg, t')
    ]

-- `group.create`
unfoldable pub apply_group_create : Digest → GroupCreate → GroupTables → Option String × GroupTables
apply_group_create d p t =
    elim (get_group_by_id (group_id_from_signature d p.group_type p.creator_user p.name) t) [
      | some g ↦ (none, t)
      | none ↦ insert_group d p t
    ]

pub record GroupUpdate : Type 0 where
  pub group_id : String
  pub name : Option String
  pub description : Option String

abbrev pub given : Option String → String → String
given none old = old
given (some new) old = new

-- `group.update`; the error of a lookup that finds nothing is sql.ErrNoRows.
unfoldable pub apply_group_update : String → GroupUpdate → GroupTables → Option String × GroupTables
apply_group_update no_rows p t = elim (get_group_by_id p.group_id t) [
  | none ↦ (some no_rows, t)
  | some g ↦
      let g' : Group = record g {
        name = given p.name g.name;
        description = given p.description g.description;
      } in
      (none, update_group g' t)
]

-- `group.delete`
unfoldable pub apply_group_delete : String → GroupTables → Option String × GroupTables
apply_group_delete gid t = elim (get_group_by_id gid t) [
  | none ↦ (none, t)
  | some g ↦ (none, delete_group gid t)
]

-- `group.member_remove`: a member that is not there counts as removed.
unfoldable pub apply_member_remove : String → String → GroupTables → Option String × GroupTables
apply_member_remove gid uid t =
    let (err, t') = remove_group_member gid uid t in
    elim err [
      | none ↦ (none, t')
      | some msg ↦ if contains msg "member not found" then (none, t') else (some msg, t')
    ]

-- What the operations of a group's log entries do, one constructor for each.
pub data GroupCommand : Type 0 where
  create : GroupCreate → GroupCommand
  update : GroupUpdate → GroupCommand
  remove : String → GroupCommand
  member_add : String → String → ℕ → GroupCommand
  member_update : String → String → ℕ → GroupCommand
  member_remove : String → String → GroupCommand
  ensure_member : String → String → ℕ → GroupCommand

unfoldable pub apply_group_command :
    Digest → String → GroupCommand → GroupTables → Option String × GroupTables
unfolding ensure_group_member
apply_group_command d no_rows (create p) t = apply_group_create d p t
apply_group_command d no_rows (update p) t = apply_group_update no_rows p t
apply_group_command d no_rows (remove gid) t = apply_group_delete gid t
apply_group_command d no_rows (member_add gid uid rank) t =
    (none, add_group_member gid uid rank none t)
apply_group_command d no_rows (member_update gid uid rank) t =
    (none, update_group_member gid uid rank t)
apply_group_command d no_rows (member_remove gid uid) t = apply_member_remove gid uid t
apply_group_command d no_rows (ensure_member gid uid rank) t =
    (none, ensure_group_member gid uid rank none t)
