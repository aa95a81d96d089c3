-- ===== src/Samples/Meetings.antt =====
-- The theorems on appointments, invitations and their log entries, at work.
use agenda_distribuida.Prelude.{
  String, ◌^^◌, ◌≡◌, refl, ap, Option, some, List, [], ◌∷◌, find, any, map, false,
}
use agenda_distribuida.Text.{is_blank}
use agenda_distribuida.Ops.{op_appt_create_personal}
use agenda_distribuida.Ids.{appointment_id_from_signature, stable_id}
use agenda_distribuida.Users.{get_user_by_id}
use agenda_distribuida.Groups.{
  Group, Appointment, Participant, get_group_by_id, get_member_rank, get_group_members,
}
use agenda_distribuida.Notifications.{add_notification, with_notification_id}
use agenda_distribuida.Appointments.{
  create_appointment, with_appointment_id, owner_name, find_appointment_by_signature, last_match,
}
use agenda_distribuida.Tables.{Tables, Env}
use agenda_distribuida.Invitations.{
  invitation_status, invite_members, commit_invited, invite_group, create_group_appointment,
  invite_note, invited,
}
use agenda_distribuida.Invitations.Guests.{guests_of_group}
use agenda_distribuida.RaftAppointments.{ApptCreate}
use agenda_distribuida.RaftAppointments.Deleted.{new_row, deleted_appointment_is_lost}
use agenda_distribuida.RaftApplier.{run, create_personal, delete_appt}
use agenda_distribuida.Samples.{entry}
use agenda_distribuida.Samples.Domain.{plain, users, tables}

abbrev pub env : Env
env = record {
  digest = plain;
  byte_length = λ s. 7;
  no_rows = "no rows";
  invite_text = λ a group owner shown status. a.id ^^ status;
  answer_text = λ a uid name shown word. a.id ^^ word;
  answer_line = λ a uid name shown word. a.id ^^ word;
  group_line = λ g uid name shown. g.id;
  member_line = λ gid group uid name shown rank. gid;
  personal_line = λ a uid name shown. a.id;
}

abbrev pub agenda : Tables
agenda = record { users = users; group_tables = tables; notifications = [] }

abbrev pub staff : Group
staff = record {
  id = "g";
  name = "staff";
  description = "";
  creator_id = "1";
  creator_username = "ana";
  group_type = "hierarchical";
}

abbrev pub meeting : Option String → Appointment
meeting gid = record {
  id = "";
  title = "talk";
  description = "";
  owner_id = "2";
  group_id = gid;
  start_ts = 300;
  end_ts = 400;
  privacy = "full";
  status = "pending";
  version = 0;
  origin_node = "";
  deleted = false;
}

abbrev made : Option String × List Participant × Tables
made = create_group_appointment env (meeting (some "g")) agenda

guests_of_group_example : map (λ p. p.status) made.1 ≡ "pending" ∷ "auto" ∷ []
unfolding create_group_appointment create_appointment invite_group invite_members commit_invited
    invitation_status with_appointment_id owner_name get_group_by_id get_group_members find any
    get_member_rank is_blank invited add_notification with_notification_id
    appointment_id_from_signature stable_id get_user_by_id invite_note
guests_of_group_example =
    ap (map (λ p. p.status))
      (guests_of_group env (meeting (some "g")) agenda made.2 "g" staff made.1 refl refl refl).0

abbrev talk : ApptCreate
talk = record {
  title = "talk";
  description = "";
  owner_id = "2";
  start_ts = 300;
  end_ts = 400;
  privacy = "full";
}

abbrev talk_gone : Tables
talk_gone =
    (run env (delete_appt (new_row env talk agenda).id) (run env (create_personal talk) agenda).1).1

deleted_appointment_is_lost_example : (run env (create_personal talk) talk_gone).1 ≡ talk_gone
unfolding find_appointment_by_signature last_match with_appointment_id owner_name any is_blank
    get_user_by_id find appointment_id_from_signature stable_id
deleted_appointment_is_lost_example =
    (deleted_appointment_is_lost env talk agenda (entry 1 1 "ev" op_appt_create_personal) refl refl
      refl).2
