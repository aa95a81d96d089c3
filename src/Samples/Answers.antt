-- ===== src/Samples/Answers.antt =====
-- The theorems on recorded events, at work.
use agenda_distribuida.Prelude.{
  ◌≡◌, refl, false, String, ◌^^◌, Option, some, none, [], find, any, Table, lookup,
}
use agenda_distribuida.Text.{is_blank}
use agenda_distribuida.Users.{get_user_by_username, get_user_by_id}
use agenda_distribuida.Groups.{
  Appointment, Participant, find_group_by_signature, get_group_by_id, get_group_members,
  get_member_rank,
}
use agenda_distribuida.Appointments.{
  get_participant_by_appointment_and_user, find_appointment_by_signature, last_match,
  get_appointment_by_id, create_appointment, with_appointment_id, owner_name,
}
use agenda_distribuida.Ids.{appointment_id_from_signature, stable_id}
use agenda_distribuida.Notifications.{add_notification, with_notification_id}
use agenda_distribuida.Tables.{Tables}
use agenda_distribuida.Events.{Event, Journal}
use agenda_distribuida.Handlers.Paths.{own_applier}
use agenda_distribuida.Reconcilers.{repair}
use agenda_distribuida.Reconcilers.Appointments.{local_group, group_here, repair_of_appointment}
use agenda_distribuida.Reconcilers.Invitations.{repair_of_answer}
use agenda_distribuida.Invitations.{
  create_group_appointment, invite_group, invite_members, commit_invited, invited,
  invitation_status, invite_note,
}
use agenda_distribuida.Recording.{Format, Value, group_of, answer_members}
use agenda_distribuida.Recording.Decoded.{
  decode_invitation, decode_appointment, invitation_payload_in, text_in, pointer_in,
}
use agenda_distribuida.Recording.Meetings.{meeting_members}
use agenda_distribuida.Recording.Unrepaired.{stored_meeting, meeting_not_repaired}
use agenda_distribuida.Recording.Travels.{fields_of, recorded_event, answer_travels}
use agenda_distribuida.Samples.{texts_differ}
use agenda_distribuida.Samples.Domain.{user, plain}
use agenda_distribuida.Samples.Meetings.{env, agenda, meeting}
use agenda_distribuida.Samples.Services.{codec, codec-IsFaithful}
use agenda_distribuida.Samples.Reconciling.{layout, layout-IsRfc3339, invitee}

abbrev format : Format
format = record { quote = λ s. "\"" ^^ (s ^^ "\""); layout = layout }

abbrev no_events : Journal Event
no_events = record { rows = []; last_id = 0 }

abbrev plan : Appointment
plan = record {
  id = "a";
  title = "plan";
  description = "";
  owner_id = "1";
  group_id = some "g";
  start_ts = 100;
  end_ts = 200;
  privacy = "full";
  status = "pending";
  version = 1;
  origin_node = "";
  deleted = false;
}

abbrev read_answer : String → Option (Table Value)
read_answer s = some (
    answer_members "a" "2" "accepted"
      (fields_of layout (user "2" "eva" "") plan (user "1" "ana" "ana@x") agenda))

abbrev mended : Tables
mended =
    repair (λ e. e.created_at) (repair_of_answer layout (decode_invitation read_answer)) codec
      (own_applier env codec 0) 4 (recorded_event format 3 "a" "2" "accepted" agenda no_events)
      agenda

answer_travels_example :
    (y : Participant) × (get_participant_by_appointment_and_user "a" "2" mended.group_tables
      ≡ some y)
    × (y.status ≡ "accepted")
unfolding get_user_by_username find get_participant_by_appointment_and_user local_group group_here
    find_group_by_signature find_appointment_by_signature last_match is_blank get_user_by_id
    get_appointment_by_id get_group_by_id group_of invitation_payload_in text_in pointer_in lookup
    answer_members
answer_travels_example =
    (answer_travels env format read_answer codec 3 4 "a" "2" "accepted" agenda agenda no_events
      (user "2" "eva" "") plan (user "1" "ana" "ana@x") (user "2" "eva" "") (user "1" "ana" "ana@x")
      (some "g") "a" invitee
      (record {
        user = refl;
        appointment = refl;
        owner = refl;
        user_name = refl;
        owner_name = refl;
        title = texts_differ "plan" "" refl;
      })
      layout-IsRfc3339 refl
      (record {
        user = refl;
        owner = refl;
        group_there = refl;
        found = refl;
        is_id = texts_differ "a" "" refl;
        participant = refl;
      })
      codec-IsFaithful ("accepted", refl)).1

abbrev after_talk : Tables
after_talk = (create_group_appointment env (meeting (some "g")) agenda).2

abbrev read_talk : String → Option (Table Value)
read_talk s = some (
    meeting_members layout (with_appointment_id plain agenda.users (meeting (some "g"))) "g"
      after_talk)

meeting_not_repaired_example :
    repair_of_appointment layout
      (decode_appointment read_talk)
      (stored_meeting format env 3 (meeting (some "g")) "g" agenda after_talk no_events)
      agenda
    ≡ none
unfolding create_group_appointment create_appointment invite_group invite_members commit_invited
    invitation_status with_appointment_id owner_name get_group_by_id get_group_members find any
    get_member_rank is_blank invited add_notification with_notification_id
    appointment_id_from_signature stable_id get_user_by_id invite_note
meeting_not_repaired_example =
    (meeting_not_repaired format env read_talk 3 (meeting (some "g")) "g" agenda after_talk
        no_events refl refl refl refl refl).1
      agenda
