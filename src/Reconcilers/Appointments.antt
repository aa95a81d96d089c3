-- ===== src/Reconcilers/Appointments.antt =====
-- reconciler_appointments.go: appointments that another node has created.
use agenda_distribuida.Prelude.{
  ℕ, ◌/◌, Bool, not, ◌||◌, String, Option, none, some, str_eq, if◌then◌else◌,
}
use agenda_distribuida.Text.{is_blank}
use agenda_distribuida.Users.{get_user_by_username}
use agenda_distribuida.Groups.{Appointment, find_group_by_signature}
use agenda_distribuida.Appointments.{find_appointment_by_signature}
use agenda_distribuida.Tables.{Tables}
use agenda_distribuida.ClusterHttp.Listing.{Layout}
use agenda_distribuida.Events.{Event}
use agenda_distribuida.DomainPropose.RoundTrip.{Proposal, new_personal, new_meeting}
use agenda_distribuida.Reconcilers.{
  Surroundings, Fetch, Reconciler, reconcile, skip_if, ◌>>=◌, ◌>>◌,
}

pub record ApptPayload : Type 0 where
  pub owner_id : String
  pub owner_username : String
  pub group_id : Option String
  pub group_name : String
  pub group_creator_username : String
  pub group_type : String
  pub title : String
  pub description : String
  pub start : String
  pub end : String
  pub privacy : String

-- What another node says of a group.
pub record GroupSignature : Type 0 where
  pub id : Option String
  pub name : String
  pub creator_username : String
  pub type : String

-- The table keeps whole seconds.
abbrev pub parsed_seconds : Layout → String → Option ℕ
parsed_seconds l s = elim (l.parse s) [ none ↦ none | some t ↦ some (t / 1000000000) ]

-- The local group of a signature; `empty` says which ids count as missing.
unfoldable pub group_here : (String → Bool) → GroupSignature → Tables → Option (Option String)
group_here empty g t = do
  skip_if (is_blank g.name || is_blank g.creator_username || is_blank g.type)
  creator ← get_user_by_username g.creator_username t.users
  skip_if (empty (find_group_by_signature g.name creator.id g.type t.group_tables))
  some (some (find_group_by_signature g.name creator.id g.type t.group_tables))

-- `some none` without a group.
unfoldable pub local_group : (String → Bool) → GroupSignature → Tables → Option (Option String)
unfolding group_here
local_group empty g t = elim g.id [
  | none ↦ some none
  | some gid ↦ if empty gid then some none else group_here empty g t
]

abbrev pub signature_in : ApptPayload → GroupSignature
signature_in p = record {
  id = p.group_id;
  name = p.group_name;
  creator_username = p.group_creator_username;
  type = p.group_type;
}

abbrev pub appointment_in : Event → ApptPayload → String → Option String → ℕ → ℕ → Appointment
appointment_in e p owner group start_ts end_ts = record {
  id = "";
  title = p.title;
  description = p.description;
  owner_id = owner;
  group_id = group;
  start_ts = start_ts;
  end_ts = end_ts;
  privacy = p.privacy;
  status = "";
  version = 0;
  origin_node = e.origin_node;
  deleted = Bool.false;
}

abbrev pub creation : String → Appointment → Proposal
creation owner a = elim a.group_id [ none ↦ new_personal owner a | some g ↦ new_meeting owner a ]

module _ (l : Layout) (decode : String → Option ApptPayload) where
  unfoldable pub repair_of_appointment : Event → Tables → Option Proposal
  unfolding local_group
  repair_of_appointment e t = do
    skip_if (str_eq e.payload "")
    p ← decode e.payload
    start_ts ← parsed_seconds l p.start
    end_ts ← parsed_seconds l p.end
    skip_if (is_blank p.owner_username)
    owner ← get_user_by_username p.owner_username t.users
    group ← local_group is_blank (signature_in p) t
    skip_if (
        not (
          is_blank
            (find_appointment_by_signature owner.id group start_ts end_ts p.title t.group_tables)))
    some (creation owner.id (appointment_in e p owner.id group start_ts end_ts))

  -- A tick of StartAppointmentReconciler.
  unfoldable pub appointment_reconciler : Surroundings → Fetch Event → Reconciler → Reconciler
  appointment_reconciler s fetch =
      reconcile (λ e. e.created_at) repair_of_appointment s "/cluster/local-events/appointments"
        fetch
