-- ===== src/Reconcilers/Invitations.antt =====
-- reconciler_invitations.go: answers to invitations that another node has recorded.
use agenda_distribuida.Prelude.{Bool, false, ◌||◌, String, Option, none, some, str_eq}
use agenda_distribuida.Text.{is_blank}
use agenda_distribuida.Users.{get_user_by_username}
use agenda_distribuida.Groups.{GroupTables}
use agenda_distribuida.Appointments.{
  find_appointment_by_signature, get_participant_by_appointment_and_user,
}
use agenda_distribuida.Tables.{Tables}
use agenda_distribuida.ClusterHttp.Listing.{Layout}
use agenda_distribuida.Events.{Event}
use agenda_distribuida.DomainPropose.RoundTrip.{Proposal, invitation_answer}
use agenda_distribuida.Reconcilers.{
  Surroundings, Fetch, Reconciler, reconcile, skip_if, ◌>>=◌, ◌>>◌,
}
use agenda_distribuida.Reconcilers.Appointments.{GroupSignature, parsed_seconds, local_group}

pub record InvitationPayload : Type 0 where
  pub appointment_id : String
  pub user_id : String
  pub username : String
  pub status : String
  pub appt_owner_username : String
  pub appt_group_id : Option String
  pub appt_group_name : String
  pub appt_group_creator_username : String
  pub appt_group_type : String
  pub appt_title : String
  pub appt_start : String
  pub appt_end : String

abbrev pub meeting_group : InvitationPayload → GroupSignature
meeting_group p = record {
  id = p.appt_group_id;
  name = p.appt_group_name;
  creator_username = p.appt_group_creator_username;
  type = p.appt_group_type;
}

abbrev pub is_empty : String → Bool
is_empty s = str_eq s ""

-- The local appointment that the payload describes.
unfoldable pub local_appointment : Layout → InvitationPayload → Tables → Option String
unfolding local_group
local_appointment l p t = do
  skip_if (is_empty p.appt_title || is_empty p.appt_start || is_empty p.appt_end)
  start_ts ← parsed_seconds l p.appt_start
  end_ts ← parsed_seconds l p.appt_end
  skip_if (is_blank p.appt_owner_username)
  owner ← get_user_by_username p.appt_owner_username t.users
  group ← local_group is_empty (meeting_group p) t
  let aid = find_appointment_by_signature owner.id group start_ts end_ts p.appt_title t.group_tables
  skip_if (is_empty aid)
  some aid

unfoldable pub has_status : String → String → String → GroupTables → Bool
has_status aid uid status t = elim (get_participant_by_appointment_and_user aid uid t) [
  | none ↦ false
  | some p ↦ str_eq p.status status
]

module _ (l : Layout) (decode : String → Option InvitationPayload) where
  unfoldable pub repair_of_answer : Event → Tables → Option Proposal
  unfolding local_appointment
  repair_of_answer e t = do
    skip_if (str_eq e.payload "")
    p ← decode e.payload
    skip_if (is_blank p.username)
    user ← get_user_by_username p.username t.users
    aid ← local_appointment l p t
    skip_if (has_status aid user.id p.status t.group_tables)
    some (invitation_answer aid user.id p.status)

  -- A tick of StartInvitationReconciler.
  unfoldable pub invitation_reconciler : Surroundings → Fetch Event → Reconciler → Reconciler
  invitation_reconciler s fetch =
      reconcile (λ e. e.created_at) repair_of_answer s "/cluster/local-events/invitations" fetch
