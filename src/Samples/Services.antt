-- ===== src/Samples/Services.antt =====
-- The theorems on the proposals and the services, at work.
use agenda_distribuida.Prelude.{
  ◌≡◌, refl, none, some, inr, List, find, any, str_eq, eq_iff, arith, true, false,
}
use agenda_distribuida.Ops.{op_invitation_accept}
use agenda_distribuida.Messages.{LogEntry}
use agenda_distribuida.Text.{is_blank}
use agenda_distribuida.Ids.{appointment_id_from_signature, stable_id}
use agenda_distribuida.Users.{get_user_by_id}
use agenda_distribuida.Groups.{Appointment, get_member_rank}
use agenda_distribuida.Notifications.{add_notification}
use agenda_distribuida.Appointments.{
  get_participant_by_appointment_and_user, get_appointment_by_id, create_appointment,
  find_appointment_by_signature, last_match, with_appointment_id, owner_name, add_participant,
  with_participant_id, has_conflict, update_participant_status,
}
use agenda_distribuida.Tables.{Tables, names_of}
use agenda_distribuida.RaftAppointments.{
  InvitationStatus, ApptCreate, apply_create_personal, insert_personal, add_owner, unless_unique,
}
use agenda_distribuida.RaftApplier.{answer, run, raft_applier, decode_command, read}
use agenda_distribuida.Payloads.{Codec, Coder, ReadsBack, IsFaithful}
use agenda_distribuida.DomainPropose.{
  new_entry, build, build_invitation_status, build_appt_create_personal,
}
use agenda_distribuida.Apply.{is_ignorable_apply_error}
use agenda_distribuida.DomainPropose.RoundTrip.{built_entry_applies, invitation_answer}
use agenda_distribuida.Service.{Outcome, returned, failed, left_by}
use agenda_distribuida.GroupService.{update_member}
use agenda_distribuida.GroupService.Ranks.{rank_change_needs_rank, MayChange}
use agenda_distribuida.AppointmentService.{
  Site, propose_personal, create_personal_appointment, accept_invitation, reject_invitation,
  answer_invitation,
}
use agenda_distribuida.AppointmentService.Answered.{answered_once}
use agenda_distribuida.AppointmentService.Booked.{booked_once}
use agenda_distribuida.Handlers.Paths.{leader_site}
use agenda_distribuida.AgendaService.{get_group_agenda_for_viewer}
use agenda_distribuida.Samples.Domain.{tables}
use agenda_distribuida.Prelude.{if◌then◌else◌, ◌&&◌}
use agenda_distribuida.Groups.{update_group_member}
use agenda_distribuida.Prelude.{◌==◌, ◌||◌}
use agenda_distribuida.Samples.{texts_differ}
use agenda_distribuida.RaftGroups.{GroupUpdate}
use agenda_distribuida.Payloads.{MemberPayload}
use agenda_distribuida.Samples.Meetings.{env, agenda, meeting}

abbrev never : {P : Type 0} → Coder P
never = record { encode = λ p. none; decode = λ s. none }

never-ReadsBack : {P : Type 0} → ReadsBack {P = P} never
never-ReadsBack p s h = cc h

-- Codecs that can write the payloads used here, and no others.
abbrev answers : Coder InvitationStatus
answers = record {
  encode = λ p.
      if str_eq p.user_id "2"
        && str_eq p.appointment_id "a"
        && (str_eq p.status "accepted" || str_eq p.status "declined")
      then some p.status
      else none;
  decode = λ s. some (record { appointment_id = "a"; user_id = "2"; status = s });
}

answers-ReadsBack : ReadsBack answers
answers-ReadsBack p s h = ground (arith, eq_iff p.user_id "2", eq_iff p.appointment_id "a")

-- eva's talk.
abbrev talks : Coder ApptCreate
talks = record {
  encode = λ p.
      if str_eq p.title "talk"
        && str_eq p.description ""
        && str_eq p.owner_id "2"
        && str_eq p.privacy "full"
        && p.start_ts == 300
        && p.end_ts == 400
      then some "{}"
      else none;
  decode = λ s. some (record {
    title = "talk";
    description = "";
    owner_id = "2";
    start_ts = 300;
    end_ts = 400;
    privacy = "full";
  });
}

talks-ReadsBack : ReadsBack talks
talks-ReadsBack p s h = ground (
  arith,
  h,
  eq_iff p.title "talk",
  eq_iff p.description "",
  eq_iff p.owner_id "2",
  eq_iff p.privacy "full",
)

abbrev memberships : Coder MemberPayload
memberships = record {
  encode = λ p.
      if str_eq p.group_id "g" && str_eq p.user_id "2"
      then (if p.rank == 9 then some "9" else if p.rank == 0 then some "0" else none)
      else none;
  decode =
      λ s. some (record { group_id = "g"; user_id = "2"; rank = if str_eq s "9" then 9 else 0 });
}

memberships-ReadsBack : ReadsBack memberships
memberships-ReadsBack p s h =
    ground
      (arith, eq_iff p.group_id "g", eq_iff p.user_id "2", eq_iff s "9", texts_differ "0" "9" refl)

abbrev renamings : Coder GroupUpdate
renamings = record {
  encode = λ p. elim p.description [
    | some d ↦ none
    | none ↦ elim p.name [ none ↦ none | some n ↦ if str_eq p.group_id "g" then some n else none ]
  ];
  decode = λ s. some (record { group_id = "g"; name = some s; description = none });
}

renamings-ReadsBack : ReadsBack renamings
renamings-ReadsBack p s h = ground (arith, eq_iff p.group_id "g")

abbrev pub codec : Codec
codec = record {
  bad_json = "invalid character";
  marshal_error = "unsupported value";
  appt_create = talks;
  appt_create_group = never;
  appt_update = never;
  appt_delete = never;
  user_create = never;
  user_profile = never;
  user_password = never;
  group_create = never;
  group_update = renamings;
  group_delete = never;
  group_member = memberships;
  invitation = answers;
  clear_email = never;
  repair_user = never;
  repair_member = never;
  repair_participant = never;
  repair_notification = never;
}

pub codec-IsFaithful : IsFaithful codec
codec-IsFaithful = record {
  appt_create = talks-ReadsBack;
  appt_create_group = never-ReadsBack;
  appt_update = never-ReadsBack;
  appt_delete = never-ReadsBack;
  user_create = never-ReadsBack;
  user_profile = never-ReadsBack;
  user_password = never-ReadsBack;
  group_create = never-ReadsBack;
  group_update = renamings-ReadsBack;
  group_delete = never-ReadsBack;
  group_member = memberships-ReadsBack;
  invitation = answers-ReadsBack;
  clear_email = never-ReadsBack;
  repair_user = never-ReadsBack;
  repair_member = never-ReadsBack;
  repair_participant = never-ReadsBack;
  repair_notification = never-ReadsBack;
}

abbrev accepted_entry : LogEntry
accepted_entry = new_entry 7000000000 "invitation" "a" op_invitation_accept "accepted"

built_entry_applies_example :
    raft_applier env codec accepted_entry agenda
    ≡ run env (answer (record { appointment_id = "a"; user_id = "2"; status = "accepted" })) agenda
unfolding build_invitation_status build
built_entry_applies_example =
    built_entry_applies env codec 7000000000 (invitation_answer "a" "2" "accepted") accepted_entry
      agenda codec-IsFaithful refl

rank_change_needs_rank_example : MayChange "1" "g" "2" agenda "g" "2"
unfolding update_member get_member_rank find update_group_member
rank_change_needs_rank_example =
    rank_change_needs_rank (some 9) "1" "g" "2" agenda "g" "2" (λ h. cc h)

abbrev accepted : Tables
accepted = left_by (accept_invitation env "2" "a" agenda)

answered_once_example :
    reject_invitation env "2" "a" accepted ≡ failed "invitation already accepted" accepted
unfolding accept_invitation answer_invitation get_participant_by_appointment_and_user find
    get_appointment_by_id update_participant_status add_notification any
answered_once_example = answered_once true false env "2" "a" agenda accepted refl

abbrev site : Site
site = leader_site env codec 7000000000

abbrev given_back : Outcome Appointment → Appointment
given_back (returned a t) = a
given_back (failed e t) = meeting none

abbrev later : Tables
later = left_by (create_personal_appointment site "2" (meeting none) agenda)

booked_once_example :
    create_personal_appointment site "2" (meeting none) later ≡ failed "conflict detected" later
unfolding create_personal_appointment propose_personal has_conflict any create_appointment
    with_appointment_id is_blank appointment_id_from_signature stable_id owner_name get_user_by_id
    find add_participant with_participant_id add_notification names_of find_appointment_by_signature
    last_match get_participant_by_appointment_and_user build_appt_create_personal
    is_ignorable_apply_error raft_applier decode_command read run apply_create_personal
    insert_personal add_owner unless_unique
booked_once_example =
    booked_once site "2" (meeting none) (meeting none)
      (given_back (create_personal_appointment site "2" (meeting none) agenda)) agenda later
      (inr (codec, 7000000000, refl, codec-IsFaithful, refl, refl, (refl, refl))) refl
      (ground arith) (ground arith) (ground arith)

abbrev viewed : List Appointment
viewed = get_group_agenda_for_viewer "2" "g" 0 900 tables
