-- ===== src/Handlers/Groups.antt =====
-- The handlers of http_handlers_scaffold.go that create, update and delete groups. A group is given
-- back without its columns of times.
use agenda_distribuida.Prelude.{
  ℕ, not, ◌&&◌, String, Option, none, some, ltb, str_eq, if◌then◌else◌,
}
use agenda_distribuida.Users.{get_user_by_id}
use agenda_distribuida.Groups.{Group, get_group_by_id, create_group, add_group_member}
use agenda_distribuida.Tables.{Env}
use agenda_distribuida.DomainPropose.{build_group_create, build_group_update}
use agenda_distribuida.Service.{returned, failed, Service}
use agenda_distribuida.GroupService.{update_group_as, delete_group_as}
use agenda_distribuida.AppointmentService.{Consensus, Site, leading}
use agenda_distribuida.Handlers.{
  Handler, ◌>>=◌, ◌>>◌, reply, required, look_up, delegate, refuse_when, replicate,
}

pub record GroupRequest : Type 0 where
  pub name : String
  pub description : String
  pub group_type : String

abbrev pub server_error : String → ℕ
server_error e = 500

-- The writes of a node that does not lead; an error of AddGroupMember is dropped.
unfoldable pub create_directly : Env → Group → Service Group
create_directly env g t =
    let (err, g', tables) = create_group env.digest g t.group_tables in
    elim err [
      | some e ↦ failed e t
      | none ↦ returned g' (record t {
        group_tables =
            add_group_member g'.id g.creator_id
              (if str_eq g.group_type "hierarchical" then 10 else 0) none tables;
      })
    ]

unfoldable pub handle_create_group : Site → Option String → Option GroupRequest → Handler Group
unfolding create_directly
handle_create_group s caller body = do
  given ← required 400 s.codec.bad_json body
  user ←
      look_up 401 "user not found"
        (λ t. get_user_by_id (elim caller [ none ↦ "" | some u ↦ u ]) t.users)
  let name : String = s.env.digest.trim_space given.name
  refuse_when (str_eq name "") 400 "name is required"
  refuse_when (ltb 200 (s.env.byte_length name)) 400 "name is too long"
  let g : Group = record {
    id = "";
    name = name;
    description = given.description;
    creator_id = user.id;
    creator_username = user.username;
    group_type = if str_eq given.group_type "" then "non_hierarchical" else given.group_type;
  }
  elim (leading s) [
    | some c ↦ do
      replicate c (build_group_create s.codec s.now g) "failed to replicate group"
      reply g
    | none ↦ delegate server_error (create_directly s.env g)
  ]

-- A field that is empty is one that is not given.
abbrev pub if_given : String → Option String
if_given s = if str_eq s "" then none else some s

unfoldable pub update_group_through_log :
    Site → Consensus → String → String → String → String → Handler Group
update_group_through_log s c actor gid name description = do
  g ← look_up 404 "group not found" (λ t. get_group_by_id gid t.group_tables)
  refuse_when (not (str_eq g.creator_id actor)) 403 "unauthorized: only group creator can update"
  replicate c (build_group_update s.codec s.now gid (if_given name) (if_given description))
      "failed to replicate group update"
  look_up 500 "failed to load updated group" (λ t. get_group_by_id gid t.group_tables)

abbrev pub group_named : Site → Option String → String → Handler (String × String)
group_named s caller group_id = do
  actor ← required 401 "unauthorized" caller
  let gid : String = s.env.digest.trim_space group_id
  refuse_when (str_eq gid "") 400 "invalid group ID"
  reply (actor, gid)

-- The body is a name and a description.
unfoldable pub handle_update_group :
    Site → Option String → String → Option (String × String) → Handler Group
unfolding update_group_through_log
handle_update_group s caller group_id body = do
  (actor, gid) ← group_named s caller group_id
  (name, description) ← required 400 s.codec.bad_json body
  refuse_when (str_eq name "" && str_eq description "") 400
      "At least one field (name or description) must be provided"
  elim (leading s) [
    | some c ↦ update_group_through_log s c actor gid name description
    | none ↦ delegate server_error (update_group_as s.env actor gid name description)
  ]

-- Without the log, also on a leader.
unfoldable pub handle_delete_group : Site → Option String → String → Handler (Unit {0})
handle_delete_group s caller group_id = do
  (actor, gid) ← group_named s caller group_id
  delegate server_error (delete_group_as s.env actor gid)
