-- ===== src/RaftApplier.antt =====
-- NewRaftApplier of raft_apply.go: the state machine of the replicated log. encoding/json is a
-- parameter.
use agenda_distribuida.Prelude.{ℕ, String, ◌^^◌, Option, none, some, List, str_eq, if◌then◌else◌}
use agenda_distribuida.Apply.{Applier}
use agenda_distribuida.Ops.{
  op_appt_create_personal, op_appt_create_group, op_appt_update, op_appt_delete, op_user_create,
  op_user_update_profile, op_user_update_password, op_group_create, op_group_update,
  op_group_delete, op_group_member_add, op_group_member_update, op_group_member_remove,
  op_invitation_accept, op_invitation_reject, op_repair_user_clear_email_if_matches,
  op_repair_ensure_user, op_repair_ensure_group_member, op_repair_ensure_participant,
  op_repair_ensure_notification,
}
use agenda_distribuida.Users.{User, UserRow, clear_user_email_if_matches}
use agenda_distribuida.RaftUsers.{
  UserUpdateProfile, apply_user_create, apply_ensure_user, apply_user_update_profile,
  apply_user_update_password,
}
use agenda_distribuida.Groups.{GroupTables}
use agenda_distribuida.RaftGroups.{
  GroupCommand, create, update, remove, member_add, member_update, member_remove, ensure_member,
  apply_group_command,
}
use agenda_distribuida.Appointments.{delete_appointment}
use agenda_distribuida.Tables.{Tables, Env}
use agenda_distribuida.RaftAppointments.{
  ApptCreate, ApptCreateGroup, ApptUpdate, InvitationStatus, EnsureParticipant, EnsureNotification,
  Applied, apply_create_personal, apply_create_group, apply_appt_update, apply_invitation,
  apply_ensure_participant, apply_ensure_notification,
}
use agenda_distribuida.Payloads.{Coder, MemberPayload, Codec}

-- A decoded entry.
pub data Command : Type 0 where
  create_personal : ApptCreate → Command
  create_group_appt : ApptCreateGroup → Command
  update_appt : ApptUpdate → Command
  delete_appt : String → Command
  create_user : User → Command
  update_profile : UserUpdateProfile → Command
  update_user_password : String → String → Command
  on_group : GroupCommand → Command
  answer : InvitationStatus → Command
  clear_email : String → String → Command
  ensure_known : User → Command
  ensure_invited : EnsureParticipant → Command
  ensure_told : EnsureNotification → Command

pub data Decoded : Type 0 where
  unsupported : Decoded
  malformed : Decoded
  command : Command → Decoded

unfoldable pub read : {P : Type 0} → Coder P → (P → Command) → String → Decoded
read coder make payload = elim (coder.decode payload) [
  | none ↦ malformed
  | some p ↦ command (make p)
]

abbrev pub pair_command : (String → String → Command) → String × String → Command
pair_command make (a, b) = make a b

abbrev pub member_command : (String → String → ℕ → GroupCommand) → MemberPayload → Command
member_command make p = on_group (make p.group_id p.user_id p.rank)

-- The switch on the operation's name.
unfoldable pub decode_command : Codec → String → String → Decoded
decode_command c op payload =
    if str_eq op op_appt_create_personal
    then read c.appt_create create_personal payload
    else if str_eq op op_repair_ensure_user
    then read c.repair_user ensure_known payload
    else if str_eq op op_appt_create_group
    then read c.appt_create_group create_group_appt payload
    else if str_eq op op_appt_update
    then read c.appt_update update_appt payload
    else if str_eq op op_appt_delete
    then read c.appt_delete delete_appt payload
    else if str_eq op op_user_create
    then read c.user_create create_user payload
    else if str_eq op op_user_update_profile
    then read c.user_profile update_profile payload
    else if str_eq op op_user_update_password
    then read c.user_password (pair_command update_user_password) payload
    else if str_eq op op_group_create
    then read c.group_create (λ p. on_group (create p)) payload
    else if str_eq op op_group_update
    then read c.group_update (λ p. on_group (update p)) payload
    else if str_eq op op_group_delete
    then read c.group_delete (λ p. on_group (remove p)) payload
    else if str_eq op op_group_member_add
    then read c.group_member (member_command member_add) payload
    else if str_eq op op_group_member_update
    then read c.group_member (member_command member_update) payload
    else if str_eq op op_group_member_remove
    then read c.group_member (member_command (λ g u rank. member_remove g u)) payload
    else if str_eq op op_invitation_accept
    then read c.invitation answer payload
    else if str_eq op op_invitation_reject
    then read c.invitation answer payload
    else if str_eq op op_repair_user_clear_email_if_matches
    then read c.clear_email (pair_command clear_email) payload
    else if str_eq op op_repair_ensure_group_member
    then read c.repair_member (member_command ensure_member) payload
    else if str_eq op op_repair_ensure_participant
    then read c.repair_participant ensure_invited payload
    else if str_eq op op_repair_ensure_notification
    then read c.repair_notification ensure_told payload
    else unsupported

abbrev with_users : Tables → Option String × List UserRow → Applied
with_users t (err, rows) = (err, record t { users = rows })

abbrev with_groups : Tables → Option String × GroupTables → Applied
with_groups t (err, g) = (err, record t { group_tables = g })

unfoldable pub run : Env → Command → Tables → Applied
run env (create_personal p) t = apply_create_personal env p t
run env (create_group_appt p) t = apply_create_group env p t
run env (update_appt p) t = apply_appt_update env p t
run env (delete_appt id) t = with_groups t (none, delete_appointment id t.group_tables)
run env (create_user p) t = with_users t (apply_user_create env.digest p t.users)
run env (update_profile p) t = with_users t (apply_user_update_profile env.no_rows p t.users)
run env (update_user_password id hash) t = with_users t (apply_user_update_password id hash t.users)
run env (on_group c) t = with_groups t (apply_group_command env.digest env.no_rows c t.group_tables)
run env (answer p) t = apply_invitation env p t
run env (clear_email id email) t = with_users t (none, clear_user_email_if_matches id email t.users)
run env (ensure_known p) t = with_users t (apply_ensure_user env.digest p t.users)
run env (ensure_invited p) t = apply_ensure_participant env p t
run env (ensure_told p) t = apply_ensure_notification env p t

unfoldable pub raft_applier : Env → Codec → Applier Tables
raft_applier env c e t = elim (decode_command c e.op e.payload) [
  | unsupported ↦ (some ("unsupported op: " ^^ e.op), t)
  | malformed ↦ (some c.bad_json, t)
  | command k ↦ run env k t
]
