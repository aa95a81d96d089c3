-- ===== src/Handlers/Details.antt =====
-- The handler of http_handlers_scaffold.go that shows an appointment.
use agenda_distribuida.Prelude.{
  Bool, false, not, ◌||◌, String, Option, none, some, List, any, str_eq,
}
use agenda_distribuida.Users.{User, get_user_by_id}
use agenda_distribuida.Groups.{Appointment}
use agenda_distribuida.Appointments.{get_appointment_by_id}
use agenda_distribuida.Participants.{ParticipantDetails, get_appointment_participants}
use agenda_distribuida.Tables.{Tables}
use agenda_distribuida.AppointmentService.{Site}
use agenda_distribuida.AgendaService.{outranks}
use agenda_distribuida.Handlers.{done, crashed, Handler, ◌>>=◌, ◌>>◌, reply, look_up, refuse_when}
use agenda_distribuida.Handlers.Accounts.{caller_id}
use agenda_distribuida.Handlers.Appointments.{filter_appointment_for_viewer}

-- The owner; for a group's appointment also who takes part in it, and who outranks the owner.
unfoldable pub may_view : String → Appointment → Tables → Bool
may_view uid a t = str_eq a.owner_id uid || (elim a.group_id [
  | none ↦ false
  | some gid ↦
      any (λ d. str_eq d.participant.user_id uid) (get_appointment_participants a.id t)
      || outranks gid uid a.owner_id t.group_tables
])

-- The error of GetUserByID is dropped, and the filter reads the id of what came back.
abbrev show_to :
    Option User
    → Appointment
    → List ParticipantDetails
    → Handler (Appointment × List ParticipantDetails)
show_to none a parts t = (crashed, t)
show_to (some u) a parts t =
    (done (filter_appointment_for_viewer a u.id a.group_id t.group_tables, parts), t)

unfoldable pub handle_get_appointment_details :
    Site → Option String → String → Handler (Appointment × List ParticipantDetails)
unfolding may_view
handle_get_appointment_details s caller appointment_id = do
  let id : String = s.env.digest.trim_space appointment_id
  let uid : String = caller_id caller
  refuse_when (str_eq id "") 400 "Invalid appointment ID"
  a ← look_up 404 "Appointment not found" (λ t. get_appointment_by_id id t.group_tables)
  allowed ← (λ t. reply (may_view uid a t) t)
  refuse_when (not allowed) 403 "Access denied"
  λ t. show_to (get_user_by_id uid t.users) a (get_appointment_participants id t) t
