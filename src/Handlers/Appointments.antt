-- ===== src/Handlers/Appointments.antt =====
-- The handlers of http_handlers_scaffold.go on appointments and invitations.
use agenda_distribuida.Prelude.{
  ℕ, ◌+◌, Bool, true, false, ◌&&◌, String, ◌^^◌, Option, none, some, List, [], ◌∷◌, ◌⊎◌, inl, inr,
  str_eq, if◌then◌else◌,
}
use agenda_distribuida.Groups.{Appointment, Participant, GroupTables, is_superior}
use agenda_distribuida.Appointments.{
  status_accepted, status_declined, get_participant_by_appointment_and_user,
}
use agenda_distribuida.DomainPropose.{build_invitation_status}
use agenda_distribuida.AppointmentService.{
  Consensus, Site, leading, create_personal_appointment, create_group_meeting,
  update_appointment_as, delete_appointment_as, accept_invitation, reject_invitation,
}
use agenda_distribuida.Handlers.{
  done, refused, Handler, ◌>>=◌, ◌>>◌, reply, required, look_up, delegate, refuse_when, replicate,
}

abbrev pub day_layout : String
day_layout = "2006-01-02"

abbrev pub formats : List String
formats =
    "2006-01-02T15:04:05Z07:00" ∷ "2006-01-02T15:04:05.000Z07:00" ∷ "2006-01-02T15:04:05.000"
    ∷ "2006-01-02T15:04:05Z07:00" ∷ "2006-01-02T15:04:05" ∷ "2006-01-02T15:04Z07:00"
    ∷ "2006-01-02T15:04" ∷ day_layout ∷ []

-- A day alone means its first second, or the start of its last minute, in UTC.
abbrev pub of_day : String → Bool → ℕ → ℕ
of_day layout at_end t = if str_eq layout day_layout && at_end then t + 86340 else t

-- `time.Parse` is the argument `parse`: a layout and a text to seconds.
unfoldable pub first_format :
    (String → String → Option ℕ) → List String → String → Bool → String ⊎ ℕ
first_format parse [] v at_end = inl ("invalid time format: " ^^ v)
first_format parse (layout ∷ rest) v at_end = elim (parse layout v) [
  | some t ↦ inr (of_day layout at_end t)
  | none ↦ first_format parse rest v at_end
]

unfoldable pub to_rfc3339 :
    (String → String) → (String → String → Option ℕ) → String → Bool → String ⊎ ℕ
unfolding first_format
to_rfc3339 trim parse text at_end =
    if str_eq (trim text) ""
    then inl "missing time"
    else first_format parse formats (trim text) at_end

pub record AppointmentRequest : Type 0 where
  pub title : String
  pub description : String
  pub start : String
  pub end : String
  pub privacy : String
  pub group_id : Option String

abbrev pub bad_request : String → ℕ
bad_request e = 400

abbrev pub internal : String → ℕ
internal e = 500

abbrev pub time_or : String ⊎ ℕ → Handler ℕ
time_or (inl e) t = (refused 400 e, t)
time_or (inr n) t = (done n, t)

abbrev requested : AppointmentRequest → String → String → ℕ → ℕ → Appointment
requested given id owner start_ts end_ts = record {
  id = id;
  title = given.title;
  description = given.description;
  owner_id = owner;
  group_id = given.group_id;
  start_ts = start_ts;
  end_ts = end_ts;
  privacy = given.privacy;
  status = "";
  version = 0;
  origin_node = "";
  deleted = false;
}

unfoldable pub handle_create_appointment :
    Site
    → (String → String → Option ℕ)
    → Option String
    → Option AppointmentRequest
    → Handler (Appointment × List Participant)
unfolding to_rfc3339
handle_create_appointment s parse caller body = do
  given ← required 400 s.codec.bad_json body
  let uid : String = elim caller [ none ↦ "" | some u ↦ u ]
  start_ts ← time_or (to_rfc3339 s.env.digest.trim_space parse given.start false)
  end_ts ← time_or (to_rfc3339 s.env.digest.trim_space parse given.end true)
  let a : Appointment = record (requested given "" uid start_ts end_ts) {
    privacy = if str_eq given.privacy "" then "full" else given.privacy;
  }
  elim given.group_id [
    | some gid ↦ delegate bad_request (create_group_meeting s uid a)
    | none ↦ do
      created ← delegate bad_request (create_personal_appointment s uid a)
      reply (created, [])
  ]

abbrev pub appointment_named : Site → Option String → String → Handler (String × String)
appointment_named s caller appointment_id = do
  uid ← required 401 "unauthorized" caller
  let id : String = s.env.digest.trim_space appointment_id
  refuse_when (str_eq id "") 400 "invalid appointment ID"
  reply (uid, id)

-- The body carries its two times as encoding/json has read them.
unfoldable pub handle_update_appointment :
    Site → Option String → String → Option (AppointmentRequest × ℕ × ℕ) → Handler Appointment
handle_update_appointment s caller appointment_id body = do
  (uid, id) ← appointment_named s caller appointment_id
  (given, start_ts, end_ts) ← required 400 s.codec.bad_json body
  delegate internal (update_appointment_as s uid (requested given id "" start_ts end_ts))

unfoldable pub handle_delete_appointment : Site → Option String → String → Handler (Unit {0})
handle_delete_appointment s caller appointment_id = do
  (uid, id) ← appointment_named s caller appointment_id
  delegate internal (delete_appointment_as s uid id)

-- An answer on the leader.
unfoldable pub answer_through_log :
    Site → Consensus → String → String → String → String → Handler (Unit {0})
answer_through_log s c status msg uid id = do
  p ←
      look_up 400 "invitation not found"
        (λ t. get_participant_by_appointment_and_user id uid t.group_tables)
  refuse_when (str_eq p.status status_accepted) 400 "invitation already accepted"
  refuse_when (str_eq p.status status_declined) 400 "invitation already declined"
  replicate c (build_invitation_status s.codec s.now id uid status) msg

unfoldable pub handle_accept_invitation : Site → Option String → String → Handler (Unit {0})
unfolding answer_through_log
handle_accept_invitation s caller appointment_id = do
  (uid, id) ← appointment_named s caller appointment_id
  elim (leading s) [
    | some c ↦ answer_through_log s c status_accepted "failed to replicate invitation accept" uid id
    | none ↦ delegate bad_request (accept_invitation s.env uid id)
  ]

unfoldable pub handle_reject_invitation : Site → Option String → String → Handler (Unit {0})
unfolding answer_through_log
handle_reject_invitation s caller appointment_id = do
  (uid, id) ← appointment_named s caller appointment_id
  elim (leading s) [
    | some c ↦ answer_through_log s c status_declined "failed to replicate invitation reject" uid id
    | none ↦ delegate bad_request (reject_invitation s.env uid id)
  ]

unfoldable pub handle_get_my_participation_status : Site → Option String → String → Handler String
handle_get_my_participation_status s caller appointment_id = do
  (uid, id) ← appointment_named s caller appointment_id
  p ←
      look_up 404 "not a participant"
        (λ t. get_participant_by_appointment_and_user id uid t.group_tables)
  reply p.status

-- `group_id` is that of the request; an error of IsSuperior reads as false.
unfoldable pub filter_appointment_for_viewer :
    Appointment → String → Option String → GroupTables → Appointment
filter_appointment_for_viewer a viewer group_id t =
    let hidden : Appointment =
      if str_eq a.privacy "freebusy" then (record a { title = "Busy"; description = "" }) else a in
    let by_rank : Appointment = elim group_id [
      | none ↦ hidden
      | some g ↦ elim a.group_id [
        | none ↦ hidden
        | some gid ↦ elim (is_superior gid viewer a.owner_id t) [ some true ↦ a | _ ↦ hidden ]
      ]
    ] in
    if str_eq a.owner_id viewer then a else by_rank
