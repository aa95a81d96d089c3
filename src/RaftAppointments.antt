-- ===== src/RaftAppointments.antt =====
-- The operations of NewRaftApplier in raft_apply.go on appointments, invitations and notifications,
-- their payloads decoded.
pub mod Answers
pub mod Deleted
use agenda_distribuida.Prelude.{
  ℕ, Bool, true, false, String, Option, none, some, List, str_eq, if◌then◌else◌,
}
use agenda_distribuida.Text.{contains}
use agenda_distribuida.Users.{unique_error}
use agenda_distribuida.Groups.{Appointment, GroupTables}
use agenda_distribuida.Notifications.{Notification, add_notification, ensure_notification}
use agenda_distribuida.Appointments.{
  status_pending, status_accepted, status_declined, new_participant, get_appointment_by_id,
  get_participant_by_appointment_and_user, find_appointment_by_signature, create_appointment,
  update_appointment, add_participant, update_participant_status, ensure_participant,
}
use agenda_distribuida.Tables.{Tables, Env, names_of}
use agenda_distribuida.Invitations.{create_group_appointment}

pub record ApptCreate : Type 0 where
  pub title : String
  pub description : String
  pub owner_id : String
  pub start_ts : ℕ
  pub end_ts : ℕ
  pub privacy : String

pub record ApptCreateGroup : Type 0 where
  pub title : String
  pub description : String
  pub owner_id : String
  pub group_id : String
  pub start_ts : ℕ
  pub end_ts : ℕ
  pub privacy : String

pub record ApptUpdate : Type 0 where
  pub appointment_id : String
  pub title : Option String
  pub description : Option String
  pub start_ts : Option ℕ
  pub end_ts : Option ℕ
  pub privacy : Option String

pub record InvitationStatus : Type 0 where
  pub appointment_id : String
  pub user_id : String
  pub status : String

pub record EnsureParticipant : Type 0 where
  pub appointment_id : String
  pub user_id : String
  pub status : String
  pub is_optional : Bool

pub record EnsureNotification : Type 0 where
  pub user_id : String
  pub type : String
  pub payload : String

abbrev pub Applied : Type 0
Applied = Option String × Tables

-- A violated UNIQUE constraint counts as done.
unfoldable pub unless_unique : Option String → Option String
unless_unique none = none
unless_unique (some msg) = if contains msg unique_error then none else some msg

-- The owner takes part in a personal appointment, once.
unfoldable pub add_owner : Env → String → String → GroupTables → Option String × GroupTables
add_owner env aid owner t = elim (get_participant_by_appointment_and_user aid owner t) [
  | some p ↦ (none, t)
  | none ↦
      let (err, t') =
        add_participant env.digest (new_participant aid owner status_accepted false) t in
      (unless_unique err, t')
]

abbrev pub personal : ApptCreate → Appointment
personal p = record {
  id = "";
  title = p.title;
  description = p.description;
  owner_id = p.owner_id;
  group_id = none;
  start_ts = p.start_ts;
  end_ts = p.end_ts;
  privacy = p.privacy;
  status = status_accepted;
  version = 0;
  origin_node = "";
  deleted = false;
}

unfoldable pub insert_personal : Env → ApptCreate → Tables → Applied
insert_personal env p t =
    let (err, a, inserted) = create_appointment env.digest t.users (personal p) t.group_tables in
    elim err [
      | some e ↦ (some e, t)
      | none ↦
          let (err', t') = add_owner env a.id p.owner_id inserted in
          (err', record t { group_tables = t' })
    ]

-- `appointment.create_personal`
unfoldable pub apply_create_personal : Env → ApptCreate → Tables → Applied
apply_create_personal env p t =
    let existing : String =
      find_appointment_by_signature p.owner_id none p.start_ts p.end_ts p.title t.group_tables in
    if str_eq existing ""
    then insert_personal env p t
    else (let (err, t') = add_owner env existing p.owner_id t.group_tables in
        (err, record t { group_tables = t' }))

abbrev pub meeting : ApptCreateGroup → Appointment
meeting p = record {
  id = "";
  title = p.title;
  description = p.description;
  owner_id = p.owner_id;
  group_id = some p.group_id;
  start_ts = p.start_ts;
  end_ts = p.end_ts;
  privacy = p.privacy;
  status = status_pending;
  version = 0;
  origin_node = "";
  deleted = false;
}

-- `appointment.create_group`
unfoldable pub apply_create_group : Env → ApptCreateGroup → Tables → Applied
apply_create_group env p t =
    let existing : String =
      find_appointment_by_signature p.owner_id (some p.group_id) p.start_ts p.end_ts p.title
        t.group_tables in
    if str_eq existing ""
    then (let (err, parts, t') = create_group_appointment env (meeting p) t in (err, t'))
    else (none, t)

abbrev pub given {ℓ} : {A : Type ℓ} → Option A → A → A
given none old = old
given (some new) old = new

abbrev pub changed : ApptUpdate → Appointment → Appointment
changed p a = record a {
  title = given p.title a.title;
  description = given p.description a.description;
  start_ts = given p.start_ts a.start_ts;
  end_ts = given p.end_ts a.end_ts;
  privacy = given p.privacy a.privacy;
}

-- `appointment.update`
unfoldable pub apply_appt_update : Env → ApptUpdate → Tables → Applied
apply_appt_update env p t = elim (get_appointment_by_id p.appointment_id t.group_tables) [
  | none ↦ (some env.no_rows, t)
  | some a ↦ (none, record t { group_tables = update_appointment (changed p a) t.group_tables })
]

-- The text and the type say "accepted" for every status but declined.
abbrev pub answer_word : String → String
answer_word status = if str_eq status status_declined then "declined" else "accepted"

abbrev pub answer_type : String → String
answer_type status =
    if str_eq status status_declined then "invitation_declined" else "invitation_accepted"

-- The owner is told of the answer.
unfoldable pub tell_owner : Env → InvitationStatus → Tables → Applied
tell_owner env p t = elim (get_appointment_by_id p.appointment_id t.group_tables) [
  | none ↦ (none, t)
  | some a ↦
      let (username, display_name) = names_of t.users p.user_id in
      let told : Notification = record {
        id = "";
        user_id = a.owner_id;
        type = answer_type p.status;
        payload = env.answer_text a p.user_id username display_name (answer_word p.status);
        read_at = none;
      } in
      let (err, notes) = add_notification env.digest told t.notifications in
      (err, record t { notifications = notes })
]

unfoldable pub set_answer : Env → InvitationStatus → Tables → Applied
set_answer env p t = tell_owner env p (record t {
  group_tables = update_participant_status p.appointment_id p.user_id p.status t.group_tables;
})

-- `invitation.accept` and `invitation.reject`
unfoldable pub apply_invitation : Env → InvitationStatus → Tables → Applied
apply_invitation env p t =
    elim (get_participant_by_appointment_and_user p.appointment_id p.user_id t.group_tables) [
      | none ↦ set_answer env p t
      | some existing ↦ if str_eq existing.status p.status then (none, t) else set_answer env p t
    ]

-- `repair.appointment.ensure_participant`
unfoldable pub apply_ensure_participant : Env → EnsureParticipant → Tables → Applied
apply_ensure_participant env p t =
    let (err, t') =
      ensure_participant env.digest p.appointment_id p.user_id p.status p.is_optional
        t.group_tables in
    (unless_unique err, record t { group_tables = t' })

-- `repair.notification.ensure`
unfoldable pub apply_ensure_notification : Env → EnsureNotification → Tables → Applied
apply_ensure_notification env p t =
    let wanted : Notification = record {
      id = "";
      user_id = p.user_id;
      type = p.type;
      payload = p.payload;
      read_at = none;
    } in
    let (err, notes) = ensure_notification env.digest wanted t.notifications in
    (err, record t { notifications = notes })
