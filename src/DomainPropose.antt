-- ===== src/DomainPropose.antt =====
-- domain_propose.go: the log entry for each change of the domain. `now` is time.Now().UnixNano(),
-- which the entry's id is the text of; json.Marshal is a parameter, and none is its error. Term and
-- index are set when the entry is proposed.
pub mod RoundTrip
use agenda_distribuida.Prelude.{ℕ, ◌/◌, Bool, String, Option, none, some, str_eq, if◌then◌else◌}
use agenda_distribuida.Messages.{LogEntry}
use agenda_distribuida.Decimal.{fmt_int}
use agenda_distribuida.Ops.{
  op_appt_create_personal, op_appt_create_group, op_appt_update, op_appt_delete, op_user_create,
  op_user_update_profile, op_user_update_password, op_group_create, op_group_update,
  op_group_delete, op_invitation_accept, op_invitation_reject,
  op_repair_user_clear_email_if_matches, op_repair_ensure_user, op_repair_ensure_group_member,
  op_repair_ensure_participant, op_repair_ensure_notification,
}
use agenda_distribuida.Users.{User}
use agenda_distribuida.RaftUsers.{UserUpdateProfile}
use agenda_distribuida.Groups.{Group, Appointment}
use agenda_distribuida.RaftGroups.{GroupCreate, GroupUpdate}
use agenda_distribuida.Appointments.{status_declined, group_signature}
use agenda_distribuida.RaftAppointments.{
  ApptCreate, ApptCreateGroup, ApptUpdate, InvitationStatus, EnsureParticipant, EnsureNotification,
}
use agenda_distribuida.Payloads.{Coder, MemberPayload, Codec}

abbrev pub new_entry : ℕ → String → String → String → String → LogEntry
new_entry now aggregate aggregate_id op payload = record {
  term = 0;
  index = 0;
  event_id = fmt_int now;
  aggregate = aggregate;
  aggregate_id = aggregate_id;
  op = op;
  payload = payload;
  timestamp = now / 1000000000;
}

unfoldable pub build : {P : Type 0} → Coder P → P → ℕ → String → String → String → Option LogEntry
build coder p now aggregate aggregate_id op = elim (coder.encode p) [
  | none ↦ none
  | some payload ↦ some (new_entry now aggregate aggregate_id op payload)
]

module _ (c : Codec) (now : ℕ) where
  unfoldable pub build_appt_create_personal : String → Appointment → Option LogEntry
  unfolding build
  build_appt_create_personal owner a =
      let p : ApptCreate = record {
        title = a.title;
        description = a.description;
        owner_id = owner;
        start_ts = a.start_ts;
        end_ts = a.end_ts;
        privacy = a.privacy;
      } in
      build c.appt_create p now "appointment" owner op_appt_create_personal

  unfoldable pub build_repair_ensure_user : User → Option LogEntry
  unfolding build
  build_repair_ensure_user u = build c.repair_user u now "repair_user" u.id op_repair_ensure_user

  unfoldable pub build_appt_create_group : String → Appointment → Option LogEntry
  unfolding build
  build_appt_create_group owner a =
      let p : ApptCreateGroup = record {
        title = a.title;
        description = a.description;
        owner_id = owner;
        group_id = group_signature a;
        start_ts = a.start_ts;
        end_ts = a.end_ts;
        privacy = a.privacy;
      } in
      build c.appt_create_group p now "appointment_group" owner op_appt_create_group

  unfoldable pub build_appt_update : Appointment → Option LogEntry
  unfolding build
  build_appt_update a =
      let p : ApptUpdate = record {
        appointment_id = a.id;
        title = some a.title;
        description = some a.description;
        start_ts = some a.start_ts;
        end_ts = some a.end_ts;
        privacy = some a.privacy;
      } in
      build c.appt_update p now "appointment" a.id op_appt_update

  unfoldable pub build_appt_delete : String → Option LogEntry
  unfolding build
  build_appt_delete id = build c.appt_delete id now "appointment" id op_appt_delete

  -- The payload leaves the id out.
  unfoldable pub build_user_create : User → Option LogEntry
  unfolding build
  build_user_create u =
      let p : User = record u { id = "" } in build c.user_create p now "user" u.id op_user_create

  unfoldable pub build_user_update_profile : User → Option LogEntry
  unfolding build
  build_user_update_profile u =
      let p : UserUpdateProfile = record {
        user_id = u.id;
        username = some u.username;
        email = some u.email;
        display_name = some u.display_name;
      } in
      build c.user_profile p now "user" u.id op_user_update_profile

  unfoldable pub build_user_update_password : String → String → Option LogEntry
  unfolding build
  build_user_update_password id hash =
      build c.user_password (id, hash) now "user" id op_user_update_password

  unfoldable pub build_group_create : Group → Option LogEntry
  unfolding build
  build_group_create g =
      let p : GroupCreate = record {
        name = g.name;
        description = g.description;
        creator_id = g.creator_id;
        creator_user = g.creator_username;
        group_type = g.group_type;
      } in
      build c.group_create p now "group" g.id op_group_create

  unfoldable pub build_group_update : String → Option String → Option String → Option LogEntry
  unfolding build
  build_group_update id name description =
      let p : GroupUpdate = record { group_id = id; name = name; description = description } in
      build c.group_update p now "group" id op_group_update

  unfoldable pub build_group_delete : String → Option LogEntry
  unfolding build
  build_group_delete id = build c.group_delete id now "group" id op_group_delete

  unfoldable pub build_group_member_op : String → String → String → ℕ → Option LogEntry
  unfolding build
  build_group_member_op op gid uid rank =
      let p : MemberPayload = record { group_id = gid; user_id = uid; rank = rank } in
      build c.group_member p now "group_member" gid op

  unfoldable pub build_invitation_status : String → String → String → Option LogEntry
  unfolding build
  build_invitation_status aid uid status =
      let p : InvitationStatus = record { appointment_id = aid; user_id = uid; status = status } in
      build c.invitation p now "invitation" aid
        (if str_eq status status_declined then op_invitation_reject else op_invitation_accept)

  unfoldable pub build_repair_user_clear_email_if_matches : String → String → Option LogEntry
  unfolding build
  build_repair_user_clear_email_if_matches id email =
      build c.clear_email (id, email) now "repair_user" id op_repair_user_clear_email_if_matches

  unfoldable pub build_repair_ensure_group_member : String → String → ℕ → Option LogEntry
  unfolding build
  build_repair_ensure_group_member gid uid rank =
      let p : MemberPayload = record { group_id = gid; user_id = uid; rank = rank } in
      build c.repair_member p now "repair_group" gid op_repair_ensure_group_member

  unfoldable pub build_repair_ensure_participant : String → String → String → Bool → Option LogEntry
  unfolding build
  build_repair_ensure_participant aid uid status is_optional =
      let p : EnsureParticipant = record {
        appointment_id = aid;
        user_id = uid;
        status = status;
        is_optional = is_optional;
      } in
      build c.repair_participant p now "repair_appointment" aid op_repair_ensure_participant

  unfoldable pub build_repair_ensure_notification : String → String → String → Option LogEntry
  unfolding build
  build_repair_ensure_notification uid type payload =
      let p : EnsureNotification = record { user_id = uid; type = type; payload = payload } in
      build c.repair_notification p now "repair_notification" uid op_repair_ensure_notification
