-- ===== src/Recording/Meetings.antt =====
-- The events that CreateGroup, AddGroupMember and CreateGroupAppointment of storage.go append.
use agenda_distribuida.Prelude.{ℕ, Option, none, some, String, [], ◌∷◌, Table}
use agenda_distribuida.Groups.{Group, Appointment, get_group_by_id, create_group, add_group_member}
use agenda_distribuida.Appointments.{with_appointment_id}
use agenda_distribuida.Tables.{Tables, Env}
use agenda_distribuida.Invitations.{Created, create_group_appointment}
use agenda_distribuida.ClusterHttp.Listing.{Layout}
use agenda_distribuida.Events.{Event, Journal, append_event}
use agenda_distribuida.Recording.{
  Format, Value, text, number, object, username_of, group_name, group_creator, moment, new_event,
}

unfoldable pub group_payload : Format → Group → String
group_payload f g = object f (
    ("id", text g.id)
    ∷ ("name", text g.name)
    ∷ ("description", text g.description)
    ∷ ("creator_id", text g.creator_id)
    ∷ ("creator_username", text g.creator_username)
    ∷ ("group_type", text g.group_type)
    ∷ [])

-- CreateGroup
unfoldable pub record_group :
    Format
    → Env
    → ℕ
    → Group
    → Tables
    → Journal Event
    → Option String × Group × Tables × Journal Event
record_group f env now g t j =
    let (err, g', groups) = create_group env.digest g t.group_tables in
    let t' : Tables = record t { group_tables = groups } in
    elim err [
      | some e ↦ (some e, g', t', j)
      | none ↦ (
        none,
        g',
        t',
        (append_event now
            (new_event "group" g'.id "create" (group_payload f g') g'.creator_username 1) j).1,
      )
    ]

unfoldable pub member_payload : Format → String → String → ℕ → Tables → String
member_payload f gid uid rank t = object f (
    ("group_id", text gid)
    ∷ ("user_id", text uid)
    ∷ ("username", text (username_of uid t.users))
    ∷ ("rank", number rank)
    ∷ [])

-- AddGroupMember
unfoldable pub record_member :
    Format
    → ℕ
    → String
    → String
    → ℕ
    → Option String
    → Tables
    → Journal Event
    → Tables × Journal Event
record_member f now gid uid rank added_by t j =
    let t' : Tables = record t {
      group_tables = add_group_member gid uid rank added_by t.group_tables;
    } in
    (
      t',
      (append_event now (new_event "group_member" gid "add" (member_payload f gid uid rank t') "" 1)
          j).1,
    )

-- There is no member group_type.
unfoldable pub meeting_members : Layout → Appointment → String → Tables → Table Value
meeting_members l a gid t =
    let g = get_group_by_id gid t.group_tables in
    ("owner_id", text a.owner_id)
    ∷ ("owner_username", text (username_of a.owner_id t.users))
    ∷ ("group_id", text gid)
    ∷ ("group_name", text (group_name g))
    ∷ ("group_creator_username", text (group_creator g))
    ∷ ("title", text a.title)
    ∷ ("description", text a.description)
    ∷ ("start", text (moment l a.start_ts))
    ∷ ("end", text (moment l a.end_ts))
    ∷ ("privacy", text a.privacy)
    ∷ []

abbrev pub meeting_payload : Format → Appointment → String → Tables → String
meeting_payload f a gid t = object f (meeting_members f.layout a gid t)

abbrev pub meeting_event : Format → Env → Appointment → String → Tables → Tables → Event
meeting_event f env a gid t t' =
    let a' = with_appointment_id env.digest t.users a in
    new_event "appointment" a'.id "create" (meeting_payload f a' gid t') a'.origin_node a'.version

-- CreateGroupAppointment, and the event once its transaction is through.
unfoldable pub record_meeting :
    Format → Env → ℕ → Appointment → Tables → Journal Event → Created × Journal Event
record_meeting f env now a t j = elim a.group_id [
  | none ↦ (create_group_appointment env a t, j)
  | some gid ↦
      let (err, parts, t') = create_group_appointment env a t in
      elim err [
        | some e ↦ ((some e, parts, t'), j)
        | none ↦ ((none, parts, t'), (append_event now (meeting_event f env a gid t t') j).1)
      ]
]
