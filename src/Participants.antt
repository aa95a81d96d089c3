-- ===== src/Participants.antt =====
-- GetAppointmentParticipants of storage.go: the participants of an appointment with their users.
use Prim.Native.Nat.{Ordering}
use Prim.Native.String
use agenda_distribuida.Prelude.{
  Bool, true, false, String, none, some, List, [], ◌∷◌, keep, find, str_eq, if◌then◌else◌,
}
use agenda_distribuida.Users.{UserRow}
use agenda_distribuida.Groups.{Participant}
use agenda_distribuida.Tables.{Tables}

pub record ParticipantDetails : Type 0 where
  pub participant : Participant
  pub username : String
  pub display_name : String

-- The join leaves out a participant without a user.
unfoldable pub join_users : List UserRow → List Participant → List ParticipantDetails
join_users users [] = []
join_users users (p ∷ ps) = elim (find (λ u. str_eq u.id p.user_id) users) [
  | none ↦ join_users users ps
  | some u ↦
      record { participant = p; username = u.username; display_name = u.display_name }
      ∷ join_users users ps
]

abbrev after_name : String → String → Bool
after_name a b = elim (Prim.Native.String.compare a b) [ Ordering.gt ↦ true | _ ↦ false ]

unfoldable pub insert_by_name :
    ParticipantDetails → List ParticipantDetails → List ParticipantDetails
insert_by_name d [] = d ∷ []
insert_by_name d (x ∷ xs) =
    if after_name d.username x.username then x ∷ insert_by_name d xs else d ∷ x ∷ xs

-- `ORDER BY u.username ASC`
unfoldable pub order_by_name : List ParticipantDetails → List ParticipantDetails
order_by_name [] = []
order_by_name (d ∷ ds) = insert_by_name d (order_by_name ds)

unfoldable pub get_appointment_participants : String → Tables → List ParticipantDetails
get_appointment_participants aid t =
    order_by_name
      (join_users t.users (keep (λ p. str_eq p.appointment_id aid) t.group_tables.participants))
