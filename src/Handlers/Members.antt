-- ===== src/Handlers/Members.antt =====
-- The handlers of http_handlers_scaffold.go that change the members of a group.
use agenda_distribuida.Prelude.{
  ℕ, true, false, not, ◌||◌, String, Option, none, some, leb, str_eq, if◌then◌else◌,
}
use agenda_distribuida.Ops.{op_group_member_add, op_group_member_update, op_group_member_remove}
use agenda_distribuida.Users.{get_user_by_username}
use agenda_distribuida.Groups.{Group, group_type_non_hierarchical, get_group_by_id, get_member_rank}
use agenda_distribuida.DomainPropose.{build_group_member_op}
use agenda_distribuida.GroupService.{unauthorized, add_member, update_member, remove_member}
use agenda_distribuida.AppointmentService.{Consensus, Site, leading}
use agenda_distribuida.Handlers.{
  Handler, ◌>>=◌, ◌>>◌, reply, required, look_up, delegate, refuse_when, replicate,
  forbidden_or_error,
}

-- A decoded body; a negative rank is none.
pub record MemberRequest : Type 0 where
  pub username : String
  pub rank : Option ℕ

abbrev pub bad_rank : String
bad_rank = "Rank must be a positive number"

abbrev pub rank_of : ℕ → String → String → String → Handler ℕ
rank_of code msg gid uid = look_up code msg (λ t. get_member_rank gid uid t.group_tables)

-- The rank that a new member gets, on the leader.
unfoldable pub rank_to_give : String → String → ℕ → Group → Handler ℕ
rank_to_give actor gid rank g =
    if str_eq g.group_type group_type_non_hierarchical
    then (do refuse_when (not (str_eq g.creator_id actor)) 403 unauthorized; reply 0)
    else (do
      actor_rank ← rank_of 403 unauthorized gid actor
      refuse_when (leb actor_rank rank) 403 unauthorized
      reply rank)

unfoldable pub add_through_log :
    Site → Consensus → String → String → String → ℕ → Handler (Unit {0})
unfolding rank_to_give
add_through_log s c actor gid uid rank = do
  g ← look_up 404 "group not found" (λ t. get_group_by_id gid t.group_tables)
  given ← rank_to_give actor gid rank g
  replicate c (build_group_member_op s.codec s.now op_group_member_add gid uid given)
      "failed to replicate member add"

-- Who calls is "" if nobody is known.
unfoldable pub handle_add_member :
    Site → Option String → String → Option MemberRequest → Handler (Unit {0})
unfolding add_through_log
handle_add_member s caller group_id body = do
  let trim = s.env.digest.trim_space
  let actor : String = elim caller [ none ↦ "" | some u ↦ u ]
  given ← required 400 s.codec.bad_json body
  refuse_when (str_eq given.username "") 400 "Username is required"
  rank ← required 400 bad_rank given.rank
  user ← look_up 400 "User not found" (λ t. get_user_by_username given.username t.users)
  member ← (λ t. reply (get_member_rank (trim group_id) user.id t.group_tables) t)
  refuse_when (elim member [ none ↦ false | some r ↦ true ]) 400 "User is already a member"
  elim (leading s) [
    | some c ↦ add_through_log s c actor (trim group_id) user.id rank
    | none ↦ delegate forbidden_or_error (add_member s.env actor (trim group_id) user.id rank)
  ]

-- Who is known to call, and two ids that are not blank.
abbrev pub named : Site → Option String → String → String → Handler (String × String × String)
named s caller group_id user_id = do
  actor ← required 401 "unauthorized" caller
  let gid : String = s.env.digest.trim_space group_id
  let uid : String = s.env.digest.trim_space user_id
  refuse_when (str_eq gid "" || str_eq uid "") 400 "invalid group or user ID"
  reply (actor, gid, uid)

-- On the leader: the actor has a rank above the member's.
unfoldable pub outrank_member : String → String → String → String → Handler (Unit {0})
outrank_member msg actor gid uid = do
  actor_rank ← rank_of 403 unauthorized gid actor
  target_rank ← rank_of 400 "member not found" gid uid
  refuse_when (leb actor_rank target_rank) 403 msg

unfoldable pub update_through_log :
    Site → Consensus → String → String → String → ℕ → Handler (Unit {0})
unfolding outrank_member
update_through_log s c actor gid uid rank = do
  outrank_member "unauthorized: insufficient rank to modify this member" actor gid uid
  replicate c (build_group_member_op s.codec s.now op_group_member_update gid uid rank)
      "failed to replicate member update"

unfoldable pub handle_update_member :
    Site → Option String → String → String → Option (Option ℕ) → Handler (Unit {0})
unfolding update_through_log
handle_update_member s caller group_id user_id body = do
  (actor, gid, uid) ← named s caller group_id user_id
  given ← required 400 s.codec.bad_json body
  rank ← required 400 bad_rank given
  elim (leading s) [
    | some c ↦ update_through_log s c actor gid uid rank
    | none ↦ delegate forbidden_or_error (update_member actor gid uid rank)
  ]

unfoldable pub remove_through_log : Site → Consensus → String → String → String → Handler (Unit {0})
unfolding outrank_member
remove_through_log s c actor gid uid = do
  outrank_member "unauthorized: insufficient rank to remove this member" actor gid uid
  replicate c (build_group_member_op s.codec s.now op_group_member_remove gid uid 0)
      "failed to replicate member remove"

unfoldable pub handle_remove_member : Site → Option String → String → String → Handler (Unit {0})
unfolding remove_through_log
handle_remove_member s caller group_id user_id = do
  (actor, gid, uid) ← named s caller group_id user_id
  elim (leading s) [
    | some c ↦ remove_through_log s c actor gid uid
    | none ↦ delegate forbidden_or_error (remove_member actor gid uid)
  ]
