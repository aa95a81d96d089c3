-- ===== src/Reconcilers/Again/Gatherings.antt =====
-- Group appointments that are created again, and an appointment's event that is handled again.
use agenda_distribuida.Prelude.{
  Bool, true, false, ◌≡◌, refl, sym, ◌∙◌, ap, subst, ◌⊎◌, inl, inr, Option, none, some, String,
  arith, Option-cases, Bool-cases, str_eq, ◌++◌, [], ◌∷◌,
}
use agenda_distribuida.Text.{is_blank}
use agenda_distribuida.Users.{unique_error, get_user_by_username}
use agenda_distribuida.Groups.{Appointment, GroupTables, find_group_by_signature}
use agenda_distribuida.Appointments.{
  find_appointment_by_signature, with_appointment_id, create_appointment, add_participant,
}
use agenda_distribuida.Invitations.{create_group_appointment, invite_group, commit_invited}
use agenda_distribuida.Invitations.Guests.{failed_invitation}
use agenda_distribuida.RaftAppointments.{
  ApptCreate, ApptCreateGroup, meeting, add_owner, insert_personal, apply_create_personal,
  apply_create_group,
}
use agenda_distribuida.Tables.{Tables, Env}
use agenda_distribuida.RaftApplier.{run}
use agenda_distribuida.Events.{Event}
use agenda_distribuida.ClusterHttp.Listing.{Layout}
use agenda_distribuida.DomainPropose.RoundTrip.{Proposal, new_personal, new_meeting}
use agenda_distribuida.Reconcilers.Appointments.{
  ApptPayload, GroupSignature, parsed_seconds, group_here, local_group, signature_in,
  appointment_in, creation, repair_of_appointment,
}
use agenda_distribuida.Reconcilers.Again.{after}
use agenda_distribuida.Reconcilers.Again.Accounts.{Steady, Quiet}
use agenda_distribuida.Reconcilers.Again.Meetings.{
  row_made, found_after, clash_after, personal_again,
}

-- What a group's appointment leaves of the other tables, and its row.
created_tables :
    (env : Env) (a : Appointment) (t : Tables)
    → (create_group_appointment env a t).0 ≡ none
    → ((create_group_appointment env a t).2.users ≡ t.users)
      × ((create_group_appointment env a t).2.group_tables.groups ≡ t.group_tables.groups)
      × ((create_group_appointment env a t).2.group_tables.appointments
          ≡ t.group_tables.appointments ++ (row_made env t a ∷ []))
unfolding create_group_appointment create_appointment invite_group commit_invited
created_tables env a t h = ground arith

abbrev meeting_here : ApptCreateGroup → GroupTables → String
meeting_here p t =
    find_appointment_by_signature p.owner_id (some p.group_id) p.start_ts p.end_ts p.title t

meeting_known :
    (env : Env) (p : ApptCreateGroup) (t : Tables)
    → str_eq (meeting_here p t.group_tables) "" ≡ false
    → (apply_create_group env p t).1 ≡ t
unfolding apply_create_group
meeting_known env p t known = ground (arith, known)

meeting_new :
    (env : Env) (p : ApptCreateGroup) (t : Tables)
    → str_eq (meeting_here p t.group_tables) "" ≡ true
    → (apply_create_group env p t).1 ≡ (create_group_appointment env (meeting p) t).2
unfolding apply_create_group
meeting_new env p t missing = ground (arith, missing)

meeting_refused :
    (env : Env) (p : ApptCreateGroup) (t : Tables) (a : Appointment) (g : GroupTables)
    → create_appointment env.digest t.users (meeting p) t.group_tables ≡ (some unique_error, a, g)
    → (create_group_appointment env (meeting p) t).2 ≡ t
unfolding create_group_appointment
meeting_refused env p t a g clash = ground (arith, clash)

made_meeting_again :
    (env : Env) (p : ApptCreateGroup) (t t1 : Tables)
    → t1.users ≡ t.users
    → t1.group_tables.appointments
      ≡ t.group_tables.appointments ++ (row_made env t (meeting p) ∷ [])
    → (apply_create_group env p t1).1 ≡ t1
made_meeting_again env p t t1 same grown =
    let here = found_after env t (meeting p) t1.group_tables grown in
    let aid = (with_appointment_id env.digest t.users (meeting p)).id in
    elim (Bool-cases (str_eq aid "")) [
      | inl blank ↦
          meeting_new env p t1 (ap (λ x. str_eq x "") here ∙ blank)
          ∙ meeting_refused env p t1 _ _
              (clash_after env t (meeting p) t1.users t1.group_tables same grown)
      | inr named ↦ meeting_known env p t1 (ap (λ x. str_eq x "") here ∙ named)
    ]

-- The entry that creates a group's appointment, applied again, changes nothing more.
pub meeting_again :
    (env : Env) (p : ApptCreateGroup) (t : Tables)
    → (apply_create_group env p (apply_create_group env p t).1).1 ≡ (apply_create_group env p t).1
meeting_again env p t = elim (Bool-cases (str_eq (meeting_here p t.group_tables) "")) [
  | inr known ↦ ap (λ x. (apply_create_group env p x).1) (meeting_known env p t known)
  | inl missing ↦
      let once = meeting_new env p t missing in
      elim (Option-cases (create_group_appointment env (meeting p) t).0) [
        | inl done ↦
            let (users, groups, grown) = created_tables env (meeting p) t done in
            ap (λ x. (apply_create_group env p x).1) once
            ∙ made_meeting_again env p t (create_group_appointment env (meeting p) t).2 users grown
            ∙ sym once
        | inr (msg, refused) ↦
            ap (λ x. (apply_create_group env p x).1)
              (once ∙ failed_invitation env (meeting p) t (λ h. ground (arith, h, refused)))
      ]
]

pub same_group_here :
    (empty : String → Bool) (g : GroupSignature) (t t' : Tables)
    → t'.users ≡ t.users
    → t'.group_tables.groups ≡ t.group_tables.groups
    → local_group empty g t' ≡ local_group empty g t
unfolding local_group group_here find_group_by_signature
same_group_here empty g t t' users groups = ground (arith, users, groups)

-- An appointment's event asks for the same, as long as users and groups stay.
appointment_asked :
    (l : Layout) (decode : String → Option ApptPayload) (e : Event) (t t' : Tables) (q : Proposal)
    → t'.users ≡ t.users
    → t'.group_tables.groups ≡ t.group_tables.groups
    → repair_of_appointment l decode e t ≡ some q
    → ((owner : String) × (a : Appointment) × (q ≡ creation owner a))
      × Steady (repair_of_appointment l decode e t') q
unfolding repair_of_appointment
appointment_asked l decode e t t' q users groups h = elim (Option-cases (decode e.payload)) [
  | inl unread ↦ ground (arith, unread)
  | inr (p, is) ↦ elim (Option-cases (parsed_seconds l p.start)) [
    | inl unparsed ↦ ground (arith, is, unparsed)
    | inr (from, at_start) ↦ elim (Option-cases (parsed_seconds l p.end)) [
      | inl unparsed ↦ ground (arith, is, at_start, unparsed)
      | inr (to, at_end) ↦ elim (Option-cases (get_user_by_username p.owner_username t.users)) [
        | inl unknown ↦ ground (arith, is, at_start, at_end, unknown)
        | inr (u, here) ↦
            let of = same_group_here is_blank (signature_in p) t t' users groups in
            elim (Option-cases (local_group is_blank (signature_in p) t)) [
              | inl elsewhere ↦ ground (arith, is, at_start, at_end, here, elsewhere)
              | inr (g, group) ↦ (
                (
                  u.id,
                  appointment_in e p u.id g from to,
                  ground (arith, is, at_start, at_end, here, group),
                ),
                elim (Bool-cases (
                    is_blank
                      (find_appointment_by_signature u.id g from to p.title t'.group_tables))) [
                        | inl missing ↦
                            inr (
                              ground (arith, is, at_start, at_end, here, group, users, of, missing))
                        | inr found ↦
                            inl
                              (ground (arith, is, at_start, at_end, here, group, users, of, found))
                      ],
              )
            ]
      ]
    ]
  ]
]

personal_tables :
    (env : Env) (p : ApptCreate) (t : Tables)
    → ((apply_create_personal env p t).1.users ≡ t.users)
      × ((apply_create_personal env p t).1.group_tables.groups ≡ t.group_tables.groups)
unfolding apply_create_personal insert_personal create_appointment add_owner add_participant
personal_tables env p t = ground arith

meeting_tables :
    (env : Env) (p : ApptCreateGroup) (t : Tables)
    → ((apply_create_group env p t).1.users ≡ t.users)
      × ((apply_create_group env p t).1.group_tables.groups ≡ t.group_tables.groups)
unfolding apply_create_group create_group_appointment create_appointment invite_group commit_invited
meeting_tables env p t = ground arith

creation_kind :
    (owner : String) (a : Appointment)
    → (creation owner a ≡ new_personal owner a) ⊎ (creation owner a ≡ new_meeting owner a)
creation_kind owner a = elim (Option-cases a.group_id) [
  | inl alone ↦ inl (ground (arith, alone))
  | inr (g, of) ↦ inr (ground (arith, of))
]

made_tables :
    (env : Env) (owner : String) (a : Appointment) (t : Tables)
    → ((after env (creation owner a) t).users ≡ t.users)
      × ((after env (creation owner a) t).group_tables.groups ≡ t.group_tables.groups)
unfolding run
made_tables env owner a t =
    let Kept : Proposal → Type 0 = λ q.
      ((after env q t).users ≡ t.users)
      × ((after env q t).group_tables.groups ≡ t.group_tables.groups) in
    elim (creation_kind owner a) [
      | inl alone ↦ subst Kept (sym alone) (personal_tables env _ t)
      | inr of ↦ subst Kept (sym of) (meeting_tables env _ t)
    ]

creation_again :
    (env : Env) (owner : String) (a : Appointment) (t : Tables)
    → after env (creation owner a) (after env (creation owner a) t) ≡ after env (creation owner a) t
unfolding run
creation_again env owner a t =
    let Again : Proposal → Type 0 = λ q. after env q (after env q t) ≡ after env q t in
    elim (creation_kind owner a) [
      | inl alone ↦ subst Again (sym alone) (personal_again env _ t)
      | inr of ↦ subst Again (sym of) (meeting_again env _ t)
    ]

pub appointment_handled :
    (env : Env) (l : Layout) (decode : String → Option ApptPayload) (e : Event) (t : Tables)
    (q : Proposal)
    → repair_of_appointment l decode e t ≡ some q
    → Quiet env (repair_of_appointment l decode e) q t
appointment_handled env l decode e t q h =
    let ((owner, a, is), steady) = appointment_asked l decode e t t q refl refl h in
    let asks = subst (λ q. repair_of_appointment l decode e t ≡ some q) is h in
    let (users, groups) = made_tables env owner a t in
    let t1 = after env (creation owner a) t in
    subst (λ q. Quiet env (repair_of_appointment l decode e) q t) (sym is)
      (
        (appointment_asked l decode e t t1 (creation owner a) users groups asks).1,
        creation_again env owner a t,
      )
