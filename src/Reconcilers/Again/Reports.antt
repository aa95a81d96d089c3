-- ===== src/Reconcilers/Again/Reports.antt =====
-- Every reconciler, and a report that it handles again.
use agenda_distribuida.Prelude.{ℕ, ◌≡◌, Option, String}
use agenda_distribuida.Tables.{Tables, Env}
use agenda_distribuida.Payloads.{Codec, IsFaithful}
use agenda_distribuida.Events.{Event, AuditLog}
use agenda_distribuida.ClusterHttp.Listing.{Layout}
use agenda_distribuida.AppointmentService.{Consensus}
use agenda_distribuida.Handlers.Paths.{own_applier}
use agenda_distribuida.Reconcilers.{repair}
use agenda_distribuida.Reconcilers.Users.{UserPayload, repair_of_user}
use agenda_distribuida.Reconcilers.Notifications.{NotifPayload, repair_of_notification}
use agenda_distribuida.Reconcilers.Groups.{
  GroupPayload, MemberEvent, repair_of_group, repair_of_member,
}
use agenda_distribuida.Reconcilers.Appointments.{ApptPayload, repair_of_appointment}
use agenda_distribuida.Reconcilers.Invitations.{InvitationPayload, repair_of_answer}
use agenda_distribuida.Reconcilers.Again.{handled_again}
use agenda_distribuida.Reconcilers.Again.Accounts.{user_handled, notification_handled}
use agenda_distribuida.Reconcilers.Again.Memberships.{group_handled, member_handled}
use agenda_distribuida.Reconcilers.Again.Gatherings.{appointment_handled}
use agenda_distribuida.Reconcilers.Again.Replies.{answer_handled}

-- What another node has recorded, by the list that it comes from.
pub data Report : Type 0 where
  of_user : AuditLog → Report
  of_group : Event → Report
  of_member : Event → Report
  of_appointment : Event → Report
  of_answer : Event → Report
  of_notification : Event → Report

-- json.Unmarshal on the payloads of the reports.
pub record Decoders : Type 0 where
  pub user : String → Option UserPayload
  pub group : String → Option GroupPayload
  pub member : String → Option MemberEvent
  pub appointment : String → Option ApptPayload
  pub invitation : String → Option InvitationPayload
  pub notification : String → Option NotifPayload

-- What a leader does with one report.
abbrev pub handle_report : Layout → Decoders → Codec → Consensus → ℕ → Report → Tables → Tables
handle_report l d codec c now (of_user a) =
    repair (λ a. a.occurred_at) (repair_of_user d.user) codec c now a
handle_report l d codec c now (of_group e) =
    repair (λ e. e.created_at) (repair_of_group d.group) codec c now e
handle_report l d codec c now (of_member e) =
    repair (λ e. e.created_at) (repair_of_member d.member) codec c now e
handle_report l d codec c now (of_appointment e) =
    repair (λ e. e.created_at) (repair_of_appointment l d.appointment) codec c now e
handle_report l d codec c now (of_answer e) =
    repair (λ e. e.created_at) (repair_of_answer l d.invitation) codec c now e
handle_report l d codec c now (of_notification e) =
    repair (λ e. e.created_at) (repair_of_notification d.notification) codec c now e

-- A report that a leader handles a second time, at any time after, of whichever of the six kinds,
-- leaves users, groups, members, appointments, participants and notifications as the first time left
-- them. The log and the table of events are not in the statement: both may grow again. The leader's log is applied at once, and payloads
-- read back.
pub report_again :
    (env : Env) (l : Layout) (d : Decoders) (codec : Codec) (now later : ℕ) (r : Report)
    (t : Tables)
    → IsFaithful codec
    → let own = own_applier env codec 0 in
      handle_report l d codec own later r (handle_report l d codec own now r t)
      ≡ handle_report l d codec own now r t
report_again env l d codec now later (of_user a) t f =
    handled_again env codec f _ (repair_of_user d.user) a now later t (user_handled env d.user a t)
report_again env l d codec now later (of_group e) t f =
    handled_again env codec f _ (repair_of_group d.group) e now later t
      (group_handled env d.group e t)
report_again env l d codec now later (of_member e) t f =
    handled_again env codec f _ (repair_of_member d.member) e now later t
      (member_handled env d.member e t)
report_again env l d codec now later (of_appointment e) t f =
    handled_again env codec f _ (repair_of_appointment l d.appointment) e now later t
      (appointment_handled env l d.appointment e t)
report_again env l d codec now later (of_answer e) t f =
    handled_again env codec f _ (repair_of_answer l d.invitation) e now later t
      (answer_handled env l d.invitation e t)
report_again env l d codec now later (of_notification e) t f =
    handled_again env codec f _ (repair_of_notification d.notification) e now later t
      (notification_handled env d.notification e t)
