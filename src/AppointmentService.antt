-- ===== src/AppointmentService.antt =====
-- appointmentService of services.go. The event bus and the replication service do nothing in the
-- program, and what is published to them is left out. Times are whole seconds.
pub mod Answered
pub mod Booking
pub mod Booked
use agenda_distribuida.Prelude.{
  ℕ, ◌+◌, ◌-◌, Bool, true, false, not, ◌&&◌, String, Option, none, some, List, [], ◌∷◌, map, find,
  ltb, ◌==◌, str_eq, if◌then◌else◌,
}
use agenda_distribuida.Messages.{LogEntry}
use agenda_distribuida.Groups.{Appointment, Participant}
use agenda_distribuida.Appointments.{
  status_pending, status_accepted, status_declined, new_participant, get_appointment_by_id,
  get_participant_by_appointment_and_user, create_appointment, update_appointment,
  delete_appointment, add_participant, update_participant_status, has_conflict,
  has_conflict_excluding, get_user_agenda, get_group_agenda,
}
use agenda_distribuida.Tables.{Tables, Env, names_of}
use agenda_distribuida.Invitations.{create_group_appointment}
use agenda_distribuida.Participants.{ParticipantDetails, get_appointment_participants}
use agenda_distribuida.Payloads.{Codec}
use agenda_distribuida.DomainPropose.{
  build_appt_create_personal, build_appt_create_group, build_appt_update, build_appt_delete,
}
use agenda_distribuida.Service.{
  Outcome, returned, failed, Service, proceed, ◌>>=◌, ◌>>◌, give, fail, ask, need, refuse_if,
  settle, perform, on_groups, always, notify, drop_error, note,
}

abbrev pub invalid_input : String
invalid_input = "invalid input"

-- Propose (consensus.go) as the services see it: an error, and the tables once it comes back.
pub record Consensus : Type 0 where
  pub leads : Bool
  pub propose : LogEntry → Tables → Option String × Tables

-- A node's surroundings: the clock in nanoseconds, and the consensus if one is wired.
pub record Site : Type 0 where
  pub env : Env
  pub codec : Codec
  pub now : ℕ
  pub consensus : Option Consensus

abbrev pub leading : Site → Option Consensus
leading s = elim s.consensus [ none ↦ none | some c ↦ if c.leads then some c else none ]

abbrev pub propose_built : Site → Consensus → Option LogEntry → Service (Unit {0})
propose_built s c none = fail s.codec.marshal_error
propose_built s c (some e) = perform (c.propose e)

-- The appointment that the tables hold in place of the one that was proposed.
abbrev pub same_slot : Appointment → Appointment → Bool
same_slot a x = str_eq x.title a.title && x.start_ts == a.start_ts && x.end_ts == a.end_ts

abbrev pub or_given : Appointment → Option Appointment → Appointment
or_given a none = a
or_given a (some x) = x

unfoldable pub propose_personal : Site → Consensus → String → Appointment → Service Appointment
propose_personal s c owner a = do
  propose_built s c (build_appt_create_personal s.codec s.now owner a)
  found ← ask (λ t.
      find (same_slot a) (get_user_agenda owner (a.start_ts - 1) (a.end_ts + 1) t.group_tables))
  give (or_given a found)

abbrev insert_appointment : Env → Appointment → Service Appointment
insert_appointment env a t =
    let (err, a', tables) = create_appointment env.digest t.users a t.group_tables in
    elim err [ some e ↦ failed e t | none ↦ returned a' (record t { group_tables = tables }) ]

unfoldable pub write_personal : Env → String → Appointment → Service Appointment
write_personal env owner a = do
  b ← insert_appointment env a
  on_groups (add_participant env.digest (new_participant b.id owner status_accepted false))
  give b

unfoldable pub create_personal_appointment : Site → String → Appointment → Service Appointment
unfolding propose_personal write_personal
create_personal_appointment s owner given = do
  let a : Appointment = record given { owner_id = owner; status = status_accepted }
  refuse_if (ltb given.end_ts given.start_ts) invalid_input
  conflict ← ask (λ t. has_conflict owner given.start_ts given.end_ts t.group_tables)
  refuse_if conflict "conflict detected"
  created ← elim (leading s) [
    | some c ↦ propose_personal s c owner a
    | none ↦ write_personal s.env owner a
  ]
  names ← ask (λ t. names_of t.users owner)
  notify s.env (note owner "appt_created" (s.env.personal_line created owner names.0 names.1))
  give created

abbrev pub people : List ParticipantDetails → List Participant
people = map (λ d. d.participant)

abbrev reload_meeting : Appointment → Option Appointment → Service (Appointment × List Participant)
reload_meeting a none = give (a, [])
reload_meeting a (some x) = ask (λ t. (x, people (get_appointment_participants x.id t)))

unfoldable pub propose_meeting :
    Site → Consensus → String → String → Appointment → Service (Appointment × List Participant)
propose_meeting s c owner gid a = do
  propose_built s c (build_appt_create_group s.codec s.now owner a)
  found ← ask (λ t.
      find (same_slot a) (get_group_agenda gid (a.start_ts - 1) (a.end_ts + 1) t.group_tables))
  reload_meeting a found

-- The appointment comes back with its id, which is what its participants name.
unfoldable pub write_meeting : Env → Appointment → Service (Appointment × List Participant)
write_meeting env a t =
    let (err, parts, t') = create_group_appointment env a t in
    elim err [
      | some e ↦ failed e t'
      | none ↦ returned ((create_appointment env.digest t.users a t.group_tables).1, parts) t'
    ]

unfoldable pub create_group_meeting :
    Site → String → Appointment → Service (Appointment × List Participant)
unfolding propose_meeting write_meeting
create_group_meeting s owner given = elim given.group_id [
  | none ↦ fail invalid_input
  | some gid ↦ do
    let a : Appointment = record given { owner_id = owner; status = status_pending }
    refuse_if (ltb given.end_ts given.start_ts) invalid_input
    elim (leading s) [ some c ↦ propose_meeting s c owner gid a | none ↦ write_meeting s.env a ]
]

-- The write goes through the log on a leader, and straight to the tables elsewhere.
abbrev through : Site → (Site → Option LogEntry) → Service (Unit {0}) → Service (Unit {0})
through s entry direct = elim (leading s) [ some c ↦ propose_built s c (entry s) | none ↦ direct ]

abbrev appointment_by_id : Env → String → Service Appointment
appointment_by_id env id = need env.no_rows (λ t. get_appointment_by_id id t.group_tables)

unfoldable pub update_appointment_as : Site → String → Appointment → Service Appointment
update_appointment_as s owner given = do
  let a : Appointment = record given { owner_id = owner }
  existing ← appointment_by_id s.env given.id
  refuse_if (not (str_eq existing.owner_id owner)) "unauthorized: only appointment owner can update"
  refuse_if (ltb given.end_ts given.start_ts) invalid_input
  conflict ←
      ask (λ t. has_conflict_excluding owner given.start_ts given.end_ts given.id t.group_tables)
  refuse_if conflict "time conflict with existing appointment"
  through s (λ s. build_appt_update s.codec s.now a) (on_groups (always (update_appointment a)))
  give a

unfoldable pub delete_appointment_as : Site → String → String → Service (Unit {0})
delete_appointment_as s owner id = do
  existing ← appointment_by_id s.env id
  refuse_if (not (str_eq existing.owner_id owner)) "unauthorized: only appointment owner can delete"
  through s (λ s. build_appt_delete s.codec s.now id) (on_groups (always (delete_appointment id)))

-- The owner is told; an error of the notification is dropped.
abbrev tell : Env → String → String → String → String → Option Appointment → Service (Unit {0})
tell env type word aid uid none = give tt
tell env type word aid uid (some a) = do
  names ← ask (λ t. names_of t.users uid)
  drop_error (notify env (note a.owner_id type (env.answer_line a uid names.0 names.1 word)))

unfoldable pub answer_invitation :
    Env → String → String → String → String → String → Service (Unit {0})
answer_invitation env status type word uid aid = do
  p ←
      need "invitation not found"
        (λ t. get_participant_by_appointment_and_user aid uid t.group_tables)
  refuse_if (str_eq p.status status_accepted) "invitation already accepted"
  refuse_if (str_eq p.status status_declined) "invitation already declined"
  on_groups (always (update_participant_status aid uid status))
  a ← ask (λ t. get_appointment_by_id aid t.group_tables)
  tell env type word aid uid a

unfoldable pub accept_invitation : Env → String → String → Service (Unit {0})
unfolding answer_invitation
accept_invitation env = answer_invitation env status_accepted "invitation_accepted" "accepted"

unfoldable pub reject_invitation : Env → String → String → Service (Unit {0})
unfolding answer_invitation
reject_invitation env = answer_invitation env status_declined "invitation_declined" "declined"
