-- ===== src/Reconcilers/Again/Replies.antt =====
-- Answers of an event that is handled again.
use agenda_distribuida.Prelude.{
  ◌≡◌, refl, sym, ◌∙◌, ap, subst, inl, inr, Option, none, some, String, arith, Option-cases,
  Bool-cases, map_again, if◌then◌else◌,
}
use agenda_distribuida.Users.{get_user_by_username}
use agenda_distribuida.Groups.{GroupTables}
use agenda_distribuida.Notifications.{Notification}
use agenda_distribuida.Appointments.{
  is_participant, get_appointment_by_id, update_participant_status, find_appointment_by_signature,
}
use agenda_distribuida.RaftAppointments.{
  InvitationStatus, tell_owner, set_answer, apply_invitation, answer_type, answer_word,
}
use agenda_distribuida.RaftAppointments.Answers.{group_tables-tell_owner}
use agenda_distribuida.Tables.{Tables, Env, names_of}
use agenda_distribuida.RaftApplier.{run}
use agenda_distribuida.Events.{Event}
use agenda_distribuida.ClusterHttp.Listing.{Layout}
use agenda_distribuida.DomainPropose.RoundTrip.{Proposal, invitation_answer}
use agenda_distribuida.Reconcilers.Invitations.{
  InvitationPayload, meeting_group, is_empty, local_appointment, has_status, repair_of_answer,
}
use agenda_distribuida.Reconcilers.Again.{after}
use agenda_distribuida.Reconcilers.Again.Accounts.{Steady, Quiet, added_again}
use agenda_distribuida.Reconcilers.Again.Gatherings.{same_group_here}

status_again :
    (a u status : String) (t : GroupTables)
    → update_participant_status a u status (update_participant_status a u status t)
      ≡ update_participant_status a u status t
unfolding update_participant_status
status_again a u status t = cc (
    map_again (λ p. if is_participant a u p then (record p { status = status }) else p)
      t.participants (λ p. ground arith))

-- What the owner is told does not depend on the participants.
told_again :
    (env : Env) (p : InvitationStatus) (t : Tables) (g : GroupTables)
    → g.appointments ≡ t.group_tables.appointments
    → (tell_owner env p (record (tell_owner env p t).1 { group_tables = g })).1
      ≡ record (tell_owner env p t).1 { group_tables = g }
unfolding tell_owner get_appointment_by_id
told_again env p t g same =
    elim (Option-cases (get_appointment_by_id p.appointment_id t.group_tables)) [
      | inl missing ↦ ground (arith, missing, same)
      | inr (a, here) ↦
          let (username, display_name) = names_of t.users p.user_id in
          let told : Notification = record {
            id = "";
            user_id = a.owner_id;
            type = answer_type p.status;
            payload = env.answer_text a p.user_id username display_name (answer_word p.status);
            read_at = none;
          } in
          ground (arith, here, same, added_again env.digest told t.notifications)
    ]

set_again :
    (env : Env) (p : InvitationStatus) (t : Tables)
    → (set_answer env p (set_answer env p t).1).1 ≡ (set_answer env p t).1
unfolding set_answer
set_again env p t =
    let u = update_participant_status p.appointment_id p.user_id p.status t.group_tables in
    let s : Tables = record t { group_tables = u } in
    let told : Tables = (tell_owner env p s).1 in
    let kept = group_tables-tell_owner env p s in
    ap (λ g. (tell_owner env p (record told { group_tables = g })).1)
      (ap (update_participant_status p.appointment_id p.user_id p.status) kept
        ∙ status_again p.appointment_id p.user_id p.status t.group_tables)
    ∙ told_again env p s u refl
    ∙ ap (λ g. record told { group_tables = g }) (sym kept)

answered_again :
    (env : Env) (p : InvitationStatus) (t : Tables)
    → (apply_invitation env p (apply_invitation env p t).1).1 ≡ (apply_invitation env p t).1
unfolding apply_invitation
answered_again env p t = ground (arith, set_again env p t)

tables_after_answer :
    (env : Env) (p : InvitationStatus) (t : Tables)
    → ((apply_invitation env p t).1.users ≡ t.users)
      × ((apply_invitation env p t).1.group_tables.groups ≡ t.group_tables.groups)
      × ((apply_invitation env p t).1.group_tables.appointments ≡ t.group_tables.appointments)
unfolding apply_invitation set_answer tell_owner update_participant_status
tables_after_answer env p t = ground arith

same_appointment :
    (l : Layout) (p : InvitationPayload) (t t' : Tables)
    → t'.users ≡ t.users
    → t'.group_tables.groups ≡ t.group_tables.groups
    → t'.group_tables.appointments ≡ t.group_tables.appointments
    → local_appointment l p t' ≡ local_appointment l p t
unfolding local_appointment find_appointment_by_signature
same_appointment l p t t' users groups appointments =
    ground
      (arith, users, appointments, same_group_here is_empty (meeting_group p) t t' users groups)

answer_asked :
    (l : Layout) (decode : String → Option InvitationPayload) (e : Event) (t t' : Tables)
    (q : Proposal)
    → t'.users ≡ t.users
    → t'.group_tables.groups ≡ t.group_tables.groups
    → t'.group_tables.appointments ≡ t.group_tables.appointments
    → repair_of_answer l decode e t ≡ some q
    → ((aid : String) × (uid : String) × (status : String) × (q ≡ invitation_answer aid uid status))
      × Steady (repair_of_answer l decode e t') q
unfolding repair_of_answer
answer_asked l decode e t t' q users groups appointments h =
    elim (Option-cases (decode e.payload)) [
      | inl unread ↦ ground (arith, unread)
      | inr (p, is) ↦
          let same = same_appointment l p t t' users groups appointments in
          elim (Option-cases (get_user_by_username p.username t.users)) [
            | inl unknown ↦ ground (arith, is, unknown)
            | inr (u, here) ↦ elim (Option-cases (local_appointment l p t)) [
              | inl elsewhere ↦ ground (arith, is, here, elsewhere)
              | inr (aid, found) ↦ (
                (aid, u.id, p.status, ground (arith, is, here, found)),
                elim (Bool-cases (has_status aid u.id p.status t'.group_tables)) [
                  | inl answered ↦ inl (ground (arith, is, here, found, users, same, answered))
                  | inr other ↦ inr (ground (arith, is, here, found, users, same, other))
                ],
              )
            ]
          ]
    ]

answer_after :
    (env : Env) (aid uid status : String) (t : Tables)
    → let q = invitation_answer aid uid status in after env q (after env q t) ≡ after env q t
unfolding run
answer_after env aid uid status t = answered_again env _ t

kept_by_answer :
    (env : Env) (aid uid status : String) (t : Tables)
    → let t1 = after env (invitation_answer aid uid status) t in
      (t1.users ≡ t.users)
      × (t1.group_tables.groups ≡ t.group_tables.groups)
      × (t1.group_tables.appointments ≡ t.group_tables.appointments)
unfolding run
kept_by_answer env aid uid status t = tables_after_answer env _ t

pub answer_handled :
    (env : Env) (l : Layout) (decode : String → Option InvitationPayload) (e : Event) (t : Tables)
    (q : Proposal)
    → repair_of_answer l decode e t ≡ some q
    → Quiet env (repair_of_answer l decode e) q t
answer_handled env l decode e t q h =
    let ((aid, uid, status, is), steady) = answer_asked l decode e t t q refl refl refl h in
    let asks = subst (λ q. repair_of_answer l decode e t ≡ some q) is h in
    let (users, groups, appointments) = kept_by_answer env aid uid status t in
    let q' = invitation_answer aid uid status in
    subst (λ q. Quiet env (repair_of_answer l decode e) q t) (sym is)
      (
        (answer_asked l decode e t (after env q' t) q' users groups appointments asks).1,
        answer_after env aid uid status t,
      )
