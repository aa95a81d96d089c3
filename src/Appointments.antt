-- ===== src/Appointments.antt =====
-- The tables `appointments` and `participants`: their operations in storage.go. Rows stand in the
-- order in which they were inserted, which is that of created_at; that column and updated_at are left
-- out, and Recording has the events. An error of a lookup is `none`.
use agenda_distribuida.Prelude.{
  ℕ, ◌+◌, Bool, true, false, not, ◌&&◌, ◌||◌, String, ◌^^◌, Option, none, some, List, [], ◌∷◌, ◌++◌,
  map, keep, find, any, leb, str_eq, if◌then◌else◌,
}
use agenda_distribuida.Text.{is_blank}
use agenda_distribuida.Ids.{Digest, stable_id, appointment_id_from_signature}
use agenda_distribuida.Users.{UserRow, unique_error, get_user_by_id}
use agenda_distribuida.Groups.{Appointment, Participant, GroupTables, in_group}

abbrev pub status_pending : String
status_pending = "pending"

abbrev pub status_accepted : String
status_accepted = "accepted"

abbrev pub status_declined : String
status_declined = "declined"

abbrev pub status_auto : String
status_auto = "auto"

unfoldable pub get_appointment_by_id : String → GroupTables → Option Appointment
get_appointment_by_id id t = find (λ a. str_eq a.id id && not a.deleted) t.appointments

abbrev pub is_participant : String → String → Participant → Bool
is_participant aid uid p = str_eq p.appointment_id aid && str_eq p.user_id uid

unfoldable pub get_participant_by_appointment_and_user :
    String → String → GroupTables → Option Participant
get_participant_by_appointment_and_user aid uid t = find (is_participant aid uid) t.participants

-- `group_id=?` for a group, `group_id IS NULL` without one.
abbrev pub same_group : Option String → Appointment → Bool
same_group none a = elim a.group_id [ none ↦ true | some g ↦ false ]
same_group (some gid) a = in_group gid a

abbrev pub has_signature : String → Option String → ℕ → ℕ → String → Appointment → Bool
has_signature owner group start_ts end_ts title a =
    str_eq a.owner_id owner
    && same_group group a
    && (leb a.start_ts start_ts && leb start_ts a.start_ts)
    && (leb a.end_ts end_ts && leb end_ts a.end_ts)
    && str_eq a.title title
    && not a.deleted

-- `ORDER BY created_at DESC LIMIT 1`
unfoldable pub last_match : (Appointment → Bool) → List Appointment → Option Appointment
last_match p [] = none
last_match p (a ∷ rest) = elim (last_match p rest) [
  | some b ↦ some b
  | none ↦ if p a then some a else none
]

-- The id, or "".
unfoldable pub find_appointment_by_signature :
    String → Option String → ℕ → ℕ → String → GroupTables → String
find_appointment_by_signature owner group start_ts end_ts title t =
    elim (last_match (has_signature owner group start_ts end_ts title) t.appointments) [
      | none ↦ ""
      | some a ↦ a.id
    ]

-- The name that goes into the id: the owner's id stands in for a user that is not found.
unfoldable pub owner_name : List UserRow → String → String
owner_name users owner = elim (get_user_by_id owner users) [
  | none ↦ owner
  | some u ↦ if is_blank u.username then owner else u.username
]

abbrev pub group_signature : Appointment → String
group_signature a = elim a.group_id [ none ↦ "" | some g ↦ g ]

unfoldable pub with_appointment_id : Digest → List UserRow → Appointment → Appointment
with_appointment_id d users a =
    if is_blank a.id
    then (record a {
      id =
          appointment_id_from_signature d (owner_name users a.owner_id) (group_signature a)
            a.start_ts a.end_ts a.title;
    })
    else a

-- The id is the primary key, of deleted rows too.
unfoldable pub create_appointment :
    Digest → List UserRow → Appointment → GroupTables → Option String × Appointment × GroupTables
create_appointment d users a t =
    if any (λ r. str_eq r.id (with_appointment_id d users a).id) t.appointments
    then (some unique_error, with_appointment_id d users a, t)
    else (
      none,
      with_appointment_id d users a,
      record t {
        appointments =
            t.appointments
            ++ (record (with_appointment_id d users a) { version = 1; deleted = false } ∷ []);
      },
    )

unfoldable pub update_appointment : Appointment → GroupTables → GroupTables
update_appointment a t = record t {
  appointments =
      map
        (λ r.
          if str_eq r.id a.id && not r.deleted
          then (record r {
            title = a.title;
            description = a.description;
            start_ts = a.start_ts;
            end_ts = a.end_ts;
            privacy = a.privacy;
            version = r.version + 1;
          })
          else r)
        t.appointments;
}

-- A deleted row stays, with a mark.
unfoldable pub delete_appointment : String → GroupTables → GroupTables
delete_appointment id t = record t {
  appointments =
      map
        (λ r. if str_eq r.id id then (record r { deleted = true; version = r.version + 1 }) else r)
        t.appointments;
}

unfoldable pub with_participant_id : Digest → Participant → Participant
with_participant_id d p =
    if is_blank p.id
    then (record p { id = stable_id d "participant" (p.appointment_id ^^ (":" ^^ p.user_id)) })
    else p

-- A row that keeps the participant out: the primary key, or the index on appointment and user.
abbrev pub participant_clash : Participant → Participant → Bool
participant_clash p r = str_eq r.id p.id || is_participant p.appointment_id p.user_id r

unfoldable pub add_participant : Digest → Participant → GroupTables → Option String × GroupTables
add_participant d p t =
    if any (participant_clash (with_participant_id d p)) t.participants
    then (some unique_error, t)
    else (none, record t { participants = t.participants ++ (with_participant_id d p ∷ []) })

unfoldable pub update_participant_status : String → String → String → GroupTables → GroupTables
update_participant_status aid uid status t = record t {
  participants =
      map (λ p. if is_participant aid uid p then (record p { status = status }) else p)
        t.participants;
}

abbrev pub new_participant : String → String → String → Bool → Participant
new_participant aid uid status is_optional = record {
  id = "";
  appointment_id = aid;
  user_id = uid;
  status = status;
  is_optional = is_optional;
}

unfoldable pub ensure_participant :
    Digest → String → String → String → Bool → GroupTables → Option String × GroupTables
ensure_participant d aid uid status is_optional t =
    elim (get_participant_by_appointment_and_user aid uid t) [
      | none ↦ add_participant d (new_participant aid uid status is_optional) t
      | some p ↦
          if str_eq p.status status
          then (none, t)
          else (none, update_participant_status aid uid status t)
    ]

abbrev pub is_busy : Participant → Bool
is_busy p = str_eq p.status status_accepted || str_eq p.status status_auto

abbrev pub overlaps : ℕ → ℕ → Appointment → Bool
overlaps start_ts end_ts a = not (leb a.end_ts start_ts || leb end_ts a.start_ts)

unfoldable pub takes_part : String → GroupTables → Appointment → Bool
takes_part uid t a = any (λ p. is_participant a.id uid p && is_busy p) t.participants

-- Whether the join has a row at all.
unfoldable pub has_conflict : String → ℕ → ℕ → GroupTables → Bool
has_conflict uid start_ts end_ts t =
    any (λ a. not a.deleted && overlaps start_ts end_ts a && takes_part uid t a) t.appointments

unfoldable pub has_conflict_excluding : String → ℕ → ℕ → String → GroupTables → Bool
has_conflict_excluding uid start_ts end_ts exclude t =
    any
      (λ a.
        not a.deleted
        && not (str_eq a.id exclude)
        && overlaps start_ts end_ts a
        && takes_part uid t a)
      t.appointments

-- `ORDER BY start_ts ASC`
unfoldable pub insert_by_start : Appointment → List Appointment → List Appointment
insert_by_start a [] = a ∷ []
insert_by_start a (b ∷ bs) =
    if leb a.start_ts b.start_ts then a ∷ b ∷ bs else b ∷ insert_by_start a bs

unfoldable pub order_by_start : List Appointment → List Appointment
order_by_start [] = []
order_by_start (a ∷ rest) = insert_by_start a (order_by_start rest)

-- One row of the join for each row of the user's participation.
unfoldable pub join_participant : String → List Participant → Appointment → List Appointment
join_participant uid [] a = []
join_participant uid (p ∷ ps) a =
    if is_participant a.id uid p then a ∷ join_participant uid ps a else join_participant uid ps a

unfoldable pub join_participants : String → List Participant → List Appointment → List Appointment
join_participants uid ps [] = []
join_participants uid ps (a ∷ rest) = join_participant uid ps a ++ join_participants uid ps rest

unfoldable pub get_user_agenda : String → ℕ → ℕ → GroupTables → List Appointment
get_user_agenda uid start_ts end_ts t = order_by_start (
    join_participants uid t.participants
      (keep (λ a. not a.deleted && overlaps start_ts end_ts a) t.appointments))

unfoldable pub get_group_agenda : String → ℕ → ℕ → GroupTables → List Appointment
get_group_agenda gid start_ts end_ts t =
    order_by_start
      (keep (λ a. in_group gid a && not a.deleted && overlaps start_ts end_ts a) t.appointments)
