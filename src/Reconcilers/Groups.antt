-- ===== src/Reconcilers/Groups.antt =====
-- reconciler_groups.go: groups that another node has created, then members that it has added.
use agenda_distribuida.Prelude.{ℕ, not, String, Option, some, List, Table, str_eq}
use agenda_distribuida.Text.{is_blank}
use agenda_distribuida.Users.{get_user_by_username}
use agenda_distribuida.Groups.{Group, get_group_by_id, find_group_by_signature}
use agenda_distribuida.Tables.{Tables}
use agenda_distribuida.ClusterNodes.{NodeRow}
use agenda_distribuida.Events.{Event}
use agenda_distribuida.DomainPropose.RoundTrip.{Proposal, new_group, member_repair}
use agenda_distribuida.Reconcilers.{
  Surroundings, Fetch, poll, cursor_of, advance, tick, local_id, skip_if, ◌>>=◌, ◌>>◌,
}

pub record GroupPayload : Type 0 where
  pub name : String
  pub description : String
  pub creator_id : String
  pub creator_username : String
  pub group_type : String

pub record MemberEvent : Type 0 where
  pub group_id : String
  pub user_id : String
  pub username : String
  pub rank : ℕ

abbrev pub group_in : GroupPayload → String → Group
group_in p creator = record {
  id = "";
  name = p.name;
  description = p.description;
  creator_id = creator;
  creator_username = p.creator_username;
  group_type = p.group_type;
}

unfoldable pub repair_of_group : (String → Option GroupPayload) → Event → Tables → Option Proposal
repair_of_group decode e t = do
  skip_if (str_eq e.payload "")
  p ← decode e.payload
  skip_if (str_eq p.name "")
  creator ← local_id p.creator_username p.creator_id t.users
  skip_if (not (str_eq (find_group_by_signature p.name creator p.group_type t.group_tables) ""))
  some (new_group (group_in p creator))

unfoldable pub repair_of_member : (String → Option MemberEvent) → Event → Tables → Option Proposal
repair_of_member decode e t = do
  skip_if (str_eq e.payload "")
  p ← decode e.payload
  skip_if (str_eq p.group_id "")
  skip_if (is_blank p.username)
  user ← get_user_by_username p.username t.users
  group ← get_group_by_id p.group_id t.group_tables
  some (member_repair p.group_id user.id p.rank)

-- The state of the group reconciler, with two times for each peer.
pub record GroupReconciler : Type 0 where
  pub tables : Tables
  pub nodes : List NodeRow
  pub since_groups : Table ℕ
  pub since_members : Table ℕ

module _ (decode : String → Option GroupPayload) (decode_member : String → Option MemberEvent)
    (s : Surroundings) (fetch : Fetch Event) where
  unfoldable pub visit_groups : String → String → GroupReconciler → GroupReconciler
  visit_groups id addr r =
      let g =
        poll (λ e. e.created_at) (repair_of_group decode) s "/cluster/local-events/groups" fetch id
          addr (cursor_of id r.since_groups) r.tables r.nodes in
      let m =
        poll (λ e. e.created_at) (repair_of_member decode_member) s
          "/cluster/local-events/group-members" fetch id addr (cursor_of id r.since_members)
          g.tables g.nodes in
      record {
        tables = m.tables;
        nodes = m.nodes;
        since_groups = advance id g.newest r.since_groups;
        since_members = advance id m.newest r.since_members;
      }

  -- A tick of StartGroupReconciler.
  unfoldable pub group_reconciler : GroupReconciler → GroupReconciler
  group_reconciler = tick s visit_groups
