-- ===== src/GroupService.antt =====
-- groupService of services.go. The repositories are the tables; GetUserByID is found on them.
pub mod Ranks
use agenda_distribuida.Prelude.{
  ℕ, Bool, true, false, not, ◌&&◌, ◌||◌, String, Option, none, some, leb, str_eq, if◌then◌else◌,
}
use agenda_distribuida.Users.{get_user_by_id}
use agenda_distribuida.Groups.{
  Group, GroupTables, group_type_non_hierarchical, get_group_by_id, get_member_rank, create_group,
  update_group, delete_group, add_group_member, update_group_member, remove_group_member,
}
use agenda_distribuida.Tables.{Tables, Env, names_of, group_name_of}
use agenda_distribuida.Service.{
  Outcome, returned, failed, Service, proceed, ◌>>=◌, ◌>>◌, give, fail, ask, need, refuse_if,
  settle, perform, on_groups, always, notify, note,
}

abbrev pub unauthorized : String
unauthorized = "unauthorized"

abbrev pub group_by_id : Env → String → Service Group
group_by_id env gid = need env.no_rows (λ t. get_group_by_id gid t.group_tables)

-- A rank, with the error of a user without one.
abbrev pub rank_or : String → String → String → Service ℕ
rank_or e gid uid = need e (λ t. get_member_rank gid uid t.group_tables)

-- The group is written with its derived id, which the caller reads from it.
abbrev insert_new : Env → Group → Service Group
insert_new env g t =
    let (err, g', tables) = create_group env.digest g t.group_tables in
    elim err [ some e ↦ failed e t | none ↦ returned g' (record t { group_tables = tables }) ]

unfoldable pub create_group_for : Env → String → String → String → Service Group
create_group_for env owner name description = do
  names ← ask (λ t. names_of t.users owner)
  g ← insert_new env (record {
    id = "";
    name = name;
    description = description;
    creator_id = owner;
    creator_username = names.0;
    group_type = "hierarchical";
  })
  on_groups (always (add_group_member g.id owner 5 none))
  notify env (note owner "group_created" (env.group_line g owner names.0 names.1))
  give g

-- An empty name or description is one that is not given, but a name that is given sets both.
abbrev pub edited : String → String → Group → Group
edited name description g = record g {
  name = if str_eq name "" then g.name else name;
  description =
      if not (str_eq description "") || not (str_eq name "") then description else g.description;
}

unfoldable pub update_group_as : Env → String → String → String → String → Service Group
update_group_as env owner gid name description = do
  g ← group_by_id env gid
  refuse_if (not (str_eq g.creator_id owner)) "unauthorized: only group creator can update"
  on_groups (always (update_group (edited name description g)))
  give (edited name description g)

unfoldable pub delete_group_as : Env → String → String → Service (Unit {0})
delete_group_as env owner gid = do
  g ← group_by_id env gid
  refuse_if (not (str_eq g.creator_id owner)) "unauthorized: only group creator can delete"
  on_groups (always (delete_group gid))

-- The rank that the new member gets, if the actor may add one.
unfoldable pub allowed_rank : String → String → ℕ → Group → Service ℕ
allowed_rank actor gid rank g =
    if str_eq g.group_type group_type_non_hierarchical
    then (do refuse_if (not (str_eq g.creator_id actor)) unauthorized; give 0)
    else (do
      actor_rank ← rank_or unauthorized gid actor
      refuse_if (leb actor_rank rank) unauthorized
      give rank)

unfoldable pub add_member : Env → String → String → String → ℕ → Service (Unit {0})
unfolding allowed_rank
add_member env actor gid uid rank = do
  g ← group_by_id env gid
  given ← allowed_rank actor gid rank g
  on_groups (always (add_group_member gid uid given (some actor)))
  name ← ask (λ t. group_name_of gid t.group_tables)
  names ← ask (λ t. names_of t.users actor)
  notify env (note uid "group_invite" (env.member_line gid name actor names.0 names.1 given))

unfoldable pub update_member : String → String → String → ℕ → Service (Unit {0})
update_member actor gid uid rank = do
  actor_rank ← rank_or unauthorized gid actor
  target_rank ← rank_or "member not found" gid uid
  refuse_if (leb actor_rank target_rank) "unauthorized: insufficient rank to modify this member"
  on_groups (always (update_group_member gid uid rank))

unfoldable pub remove_member : String → String → String → Service (Unit {0})
remove_member actor gid uid = do
  actor_rank ← rank_or unauthorized gid actor
  target_rank ← rank_or "member not found" gid uid
  refuse_if (leb actor_rank target_rank) "unauthorized: insufficient rank to remove this member"
  on_groups (remove_group_member gid uid)
