-- ===== src/Payloads.antt =====
-- The payloads of raft_apply.go as encoding/json writes and reads them.
use agenda_distribuida.Prelude.{ℕ, String, Option, some, ◌≡◌}
use agenda_distribuida.Users.{User}
use agenda_distribuida.RaftUsers.{UserUpdateProfile}
use agenda_distribuida.RaftGroups.{GroupCreate, GroupUpdate}
use agenda_distribuida.RaftAppointments.{
  ApptCreate, ApptCreateGroup, ApptUpdate, InvitationStatus, EnsureParticipant, EnsureNotification,
}

-- `json.Marshal` and `json.Unmarshal` at one payload type; none is an error, and a codec names the
-- text of either.
pub record Coder (P : Type 0) : Type 0 where
  pub encode : P → Option String
  pub decode : String → Option P

pub record MemberPayload : Type 0 where
  pub group_id : String
  pub user_id : String
  pub rank : ℕ

pub record Codec : Type 0 where
  pub bad_json : String
  pub marshal_error : String
  pub appt_create : Coder ApptCreate
  pub appt_create_group : Coder ApptCreateGroup
  pub appt_update : Coder ApptUpdate
  pub appt_delete : Coder String
  pub user_create : Coder User
  pub user_profile : Coder UserUpdateProfile
  pub user_password : Coder (String × String)
  pub group_create : Coder GroupCreate
  pub group_update : Coder GroupUpdate
  pub group_delete : Coder String
  pub group_member : Coder MemberPayload
  pub invitation : Coder InvitationStatus
  pub clear_email : Coder (String × String)
  pub repair_user : Coder User
  pub repair_member : Coder MemberPayload
  pub repair_participant : Coder EnsureParticipant
  pub repair_notification : Coder EnsureNotification

-- What was written reads back. Texts are valid UTF-8, which json.Marshal keeps.
abbrev pub ReadsBack : {P : Type 0} → Coder P → Type 0
ReadsBack {P} c = (p : P) (s : String) → c.encode p ≡ some s → c.decode s ≡ some p

pub record IsFaithful (c : Codec) : Type 0 where
  pub appt_create : ReadsBack c.appt_create
  pub appt_create_group : ReadsBack c.appt_create_group
  pub appt_update : ReadsBack c.appt_update
  pub appt_delete : ReadsBack c.appt_delete
  pub user_create : ReadsBack c.user_create
  pub user_profile : ReadsBack c.user_profile
  pub user_password : ReadsBack c.user_password
  pub group_create : ReadsBack c.group_create
  pub group_update : ReadsBack c.group_update
  pub group_delete : ReadsBack c.group_delete
  pub group_member : ReadsBack c.group_member
  pub invitation : ReadsBack c.invitation
  pub clear_email : ReadsBack c.clear_email
  pub repair_user : ReadsBack c.repair_user
  pub repair_member : ReadsBack c.repair_member
  pub repair_participant : ReadsBack c.repair_participant
  pub repair_notification : ReadsBack c.repair_notification
