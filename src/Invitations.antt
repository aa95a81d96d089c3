-- ===== src/Invitations.antt =====
-- `CreateGroupAppointment` of storage.go: one transaction that inserts an appointment, a participant
-- and a notification for each member of the group. The event that it logs afterwards is left out.
pub mod Guests
use agenda_distribuida.Prelude.{
  ℕ, Bool, true, false, String, ◌^^◌, Option, none, some, List, [], ◌∷◌, ◌++◌, any, ltb, str_eq,
  if◌then◌else◌,
}
use agenda_distribuida.Ids.{Digest, stable_id}
use agenda_distribuida.Users.{unique_error}
use agenda_distribuida.Groups.{
  Group, GroupMember, Appointment, Participant, GroupTables, group_type_non_hierarchical,
  get_group_by_id, get_member_rank, get_group_members,
}
use agenda_distribuida.Notifications.{Notification}
use agenda_distribuida.Appointments.{
  status_pending, status_auto, participant_clash, create_appointment,
}
use agenda_distribuida.Tables.{Tables, Env, names_of, group_name_of}

-- A member's status; none if the owner has no rank.
unfoldable pub invitation_status : Group → String → GroupTables → GroupMember → Option String
invitation_status g owner t m =
    if str_eq g.group_type group_type_non_hierarchical
    then some (if str_eq m.user_id owner then status_auto else status_pending)
    else elim (get_member_rank g.id owner t) [
      | none ↦ none
      | some creator_rank ↦ some (if ltb creator_rank m.rank then status_pending else status_auto)
    ]

unfoldable pub invited : Digest → Appointment → GroupMember → String → Participant
invited d a m status = record {
  id = stable_id d "participant" (a.id ^^ (":" ^^ m.user_id));
  appointment_id = a.id;
  user_id = m.user_id;
  status = status;
  is_optional = false;
}

unfoldable pub invite_note :
    Env → Tables → String → Appointment → GroupMember → String → Notification
invite_note env t gid a m status =
    let (username, display_name) = names_of t.users a.owner_id in
    record {
      id = stable_id env.digest "notification" (m.user_id ^^ (":invite:" ^^ a.id));
      user_id = m.user_id;
      type = "invite";
      payload = env.invite_text a (group_name_of gid t.group_tables) username display_name status;
      read_at = none;
    }

-- A transaction: the tables when it began, and as it has written them.
pub record Transaction : Type 0 where
  pub before : Tables
  pub written : Tables

abbrev pub begin : Tables → Transaction
begin t = record { before = t; written = t }

abbrev pub rollback : Transaction → Tables
rollback tx = tx.before

abbrev pub commit : Transaction → Tables
commit tx = tx.written

-- The loop over the members: the error that ends it, or the participants that were made, and the two
-- tables as written so far. Lookups go past the transaction, and see the tables `t` before it.
pub data Invited : Type 0 where
  stopped : String → List Participant → List Notification → Invited
  done : List Participant → List Participant → List Notification → Invited

unfoldable pub invite_members :
    Env
    → Tables
    → Group
    → Appointment
    → List GroupMember
    → List Participant
    → List Participant
    → List Notification
    → Invited
invite_members env t g a [] new parts notes = done new parts notes
invite_members env t g a (m ∷ ms) new parts notes =
    elim (invitation_status g a.owner_id t.group_tables m) [
      | none ↦ stopped env.no_rows parts notes
      | some status ↦ elim (any (participant_clash (invited env.digest a m status)) parts) [
        | true ↦ stopped unique_error parts notes
        | false ↦ elim (any (λ r. str_eq r.id (invite_note env t g.id a m status).id) notes) [
          | true ↦ stopped unique_error (parts ++ (invited env.digest a m status ∷ [])) notes
          | false ↦
              invite_members env t g a ms (new ++ (invited env.digest a m status ∷ []))
                (parts ++ (invited env.digest a m status ∷ []))
                (notes ++ (invite_note env t g.id a m status ∷ []))
        ]
      ]
    ]

-- What the caller gets: an error, or the participants, with the tables.
abbrev pub Created : Type 0
Created = Option String × List Participant × Tables

-- The transaction once it has inserted the appointment, and participants and notifications so far.
abbrev pub inviting : Tables → GroupTables → List Participant → List Notification → Transaction
inviting t inserted parts notes = record (begin t) {
  written = record t {
    group_tables = record inserted { participants = parts };
    notifications = notes;
  };
}

unfoldable pub commit_invited : Tables → GroupTables → Invited → Created
commit_invited t inserted (stopped e parts notes) =
    (some e, [], rollback (inviting t inserted parts notes))
commit_invited t inserted (done new parts notes) =
    (none, new, commit (inviting t inserted parts notes))

unfoldable pub invite_group : Env → Tables → String → Appointment → GroupTables → Created
invite_group env t gid a inserted = elim (get_group_by_id gid t.group_tables) [
  | none ↦
      (some env.no_rows, [], rollback (inviting t inserted inserted.participants t.notifications))
  | some g ↦ commit_invited t inserted (
      invite_members env t g a (get_group_members gid t.group_tables) [] t.group_tables.participants
        t.notifications)
]

unfoldable pub create_group_appointment : Env → Appointment → Tables → Created
create_group_appointment env a t = elim a.group_id [
  | none ↦ (some "group appointment requires GroupID", [], t)
  | some gid ↦
      let (err, a', inserted) = create_appointment env.digest t.users a t.group_tables in
      elim err [
        | some e ↦ (some e, [], rollback (begin t))
        | none ↦ invite_group env t gid a' inserted
      ]
]
