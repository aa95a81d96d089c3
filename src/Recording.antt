-- ===== src/Recording.antt =====
-- The events that operations of storage.go append for the reconcilers: CreateAppointment,
-- UpdateParticipantStatus and AddNotification, with the texts that they write. Meetings has the others.
pub mod Decoded
pub mod Travels
pub mod Meetings
pub mod Unrepaired
use Prim.Native.String
use agenda_distribuida.Prelude.{ℕ, ◌*◌, String, ◌^^◌, Option, none, some, List, [], ◌∷◌, Table}
use agenda_distribuida.Decimal.{fmt_int}
use agenda_distribuida.Users.{UserRow, get_user_by_id}
use agenda_distribuida.Groups.{Group, Appointment, GroupTables, get_group_by_id}
use agenda_distribuida.Appointments.{
  get_appointment_by_id, create_appointment, update_participant_status,
}
use agenda_distribuida.Notifications.{Notification, with_notification_id, add_notification}
use agenda_distribuida.Tables.{Tables, Env}
use agenda_distribuida.ClusterHttp.Listing.{Layout}
use agenda_distribuida.Events.{Event, Journal, append_event}

-- `quote` is fmt's verb %q.
pub record Format : Type 0 where
  pub quote : String → String
  pub layout : Layout

-- A value of JSON, as far as events have them.
pub data Value : Type 0 where
  text : String → Value
  null : Value
  number : ℕ → Value

abbrev pub or_null : Option String → Value
or_null s = elim s [ none ↦ null | some x ↦ text x ]

unfoldable pub render : Format → Value → String
render f (text s) = f.quote s
render f null = "null"
render f (number n) = fmt_int n

unfoldable pub members : Format → Table Value → String
unfolding render
members f [] = ""
members f ((name, value) ∷ []) = "\"" ^^ (name ^^ ("\":" ^^ render f value))
members f ((name, value) ∷ m ∷ ms) =
    "\"" ^^ (name ^^ ("\":" ^^ (render f value ^^ ("," ^^ members f (m ∷ ms)))))

abbrev pub object : Format → Table Value → String
object f ms = String.◌∷◌ "{" (members f ms ^^ "}")

unfoldable pub username_of : String → List UserRow → String
username_of uid users = elim (get_user_by_id uid users) [ none ↦ "" | some u ↦ u.username ]

-- The group of an appointment, where it has one that is there.
unfoldable pub group_of : Option String → GroupTables → Option Group
group_of gid t = elim gid [ none ↦ none | some g ↦ get_group_by_id g t ]

abbrev pub group_name : Option Group → String
group_name g = elim g [ none ↦ "" | some x ↦ x.name ]

abbrev pub group_creator : Option Group → String
group_creator g = elim g [ none ↦ "" | some x ↦ x.creator_username ]

abbrev pub group_type_of : Option Group → Option String
group_type_of g = elim g [ none ↦ none | some x ↦ some x.group_type ]

abbrev pub moment : Layout → ℕ → String
moment l seconds = l.format (seconds * 1000000000)

-- What an event says of an answer: the user's name, and the appointment by its owner's name, its group,
-- its title and its times, each "" where it is not found.
pub record AnswerFields : Type 0 where
  pub username : String
  pub owner_username : String
  pub group_id : Option String
  pub group : Option Group
  pub title : String
  pub start : String
  pub end : String

unfoldable pub answer_fields : Layout → String → String → Tables → AnswerFields
answer_fields l aid uid t = elim (get_appointment_by_id aid t.group_tables) [
  | none ↦ record {
    username = username_of uid t.users;
    owner_username = "";
    group_id = none;
    group = none;
    title = "";
    start = "";
    end = "";
  }
  | some a ↦ record {
    username = username_of uid t.users;
    owner_username = username_of a.owner_id t.users;
    group_id = a.group_id;
    group = group_of a.group_id t.group_tables;
    title = a.title;
    start = moment l a.start_ts;
    end = moment l a.end_ts;
  }
]

unfoldable pub answer_members : String → String → String → AnswerFields → Table Value
answer_members aid uid status x =
    ("appointment_id", text aid)
    ∷ ("user_id", text uid)
    ∷ ("username", text x.username)
    ∷ ("status", text status)
    ∷ ("appt_owner_username", text x.owner_username)
    ∷ ("appt_group_id", or_null x.group_id)
    ∷ ("appt_group_name", text (group_name x.group))
    ∷ ("appt_group_creator_username", text (group_creator x.group))
    ∷ ("appt_group_type", or_null (group_type_of x.group))
    ∷ ("appt_title", text x.title)
    ∷ ("appt_start", text x.start)
    ∷ ("appt_end", text x.end)
    ∷ []

abbrev pub answer_payload : Format → String → String → String → AnswerFields → String
answer_payload f aid uid status x = object f (answer_members aid uid status x)

-- An event before it is stored.
abbrev pub new_event : String → String → String → String → String → ℕ → Event
new_event entity id action payload origin version = record {
  id = 0;
  entity = entity;
  entity_id = id;
  action = action;
  payload = payload;
  created_at = 0;
  origin_node = origin;
  version = version;
}

abbrev pub answer_event : Format → String → String → String → Tables → Event
answer_event f aid uid status t =
    new_event "invitation" aid "status_change"
      (answer_payload f aid uid status (answer_fields f.layout aid uid t)) "" 1

-- UpdateParticipantStatus: the event is made of the tables after the update.
unfoldable pub record_status :
    Format → ℕ → String → String → String → Tables → Journal Event → Tables × Journal Event
record_status f now aid uid status t j =
    let t' : Tables = record t {
      group_tables = update_participant_status aid uid status t.group_tables;
    } in
    (t', (append_event now (answer_event f aid uid status t') j).1)

unfoldable pub created_payload : Format → Appointment → Tables → String
created_payload f a t =
    let g = group_of a.group_id t.group_tables in
    object f (
      ("owner_id", text a.owner_id)
      ∷ ("owner_username", text (username_of a.owner_id t.users))
      ∷ ("group_id", or_null a.group_id)
      ∷ ("group_name", text (group_name g))
      ∷ ("group_creator_username", text (group_creator g))
      ∷ ("group_type", or_null (group_type_of g))
      ∷ ("title", text a.title)
      ∷ ("description", text a.description)
      ∷ ("start", text (moment f.layout a.start_ts))
      ∷ ("end", text (moment f.layout a.end_ts))
      ∷ ("privacy", text a.privacy)
      ∷ [])

-- CreateAppointment: an error, and no event, where the id is taken.
unfoldable pub record_appointment :
    Format
    → Env
    → ℕ
    → Appointment
    → Tables
    → Journal Event
    → Option String × Appointment × Tables × Journal Event
record_appointment f env now a t j =
    let (err, a', groups) = create_appointment env.digest t.users a t.group_tables in
    let t' : Tables = record t { group_tables = groups } in
    elim err [
      | some e ↦ (some e, a', t', j)
      | none ↦ (
        none,
        a',
        t',
        (append_event now
            (new_event "appointment" a'.id "create" (created_payload f a' t') a'.origin_node
              a'.version)
            j).1,
      )
    ]

unfoldable pub notification_payload : Format → Notification → Tables → String
notification_payload f n t = object f (
    ("user_id", text n.user_id)
    ∷ ("username", text (username_of n.user_id t.users))
    ∷ ("type", text n.type)
    ∷ ("payload", text n.payload)
    ∷ [])

-- AddNotification
unfoldable pub record_notification :
    Format
    → Env
    → ℕ
    → Notification
    → Tables
    → Journal Event
    → Option String × Tables × Journal Event
record_notification f env now n t j =
    let (err, notes) = add_notification env.digest n t.notifications in
    let t' : Tables = record t { notifications = notes } in
    elim err [
      | some e ↦ (some e, t', j)
      | none ↦ (
        none,
        t',
        (append_event now
            (new_event "notification" (with_notification_id env.digest n).id "create"
              (notification_payload f n t') "" 1)
            j).1,
      )
    ]
