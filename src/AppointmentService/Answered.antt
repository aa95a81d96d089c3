-- ===== src/AppointmentService/Answered.antt =====
-- An invitation that is answered a second time.
use agenda_distribuida.Prelude.{
  ◌≡◌, refl, sym, subst, Bool, true, false, String, some, str_eq, eq_iff, arith, Option-cases, inl,
  inr,
}
use agenda_distribuida.Groups.{Participant}
use agenda_distribuida.Appointments.{
  status_accepted, status_declined, get_participant_by_appointment_and_user,
  update_participant_status,
}
use agenda_distribuida.RaftAppointments.Answers.{status-update}
use agenda_distribuida.Tables.{Tables, Env}
use agenda_distribuida.Service.{returned, failed, Service}
use agenda_distribuida.AppointmentService.{accept_invitation, reject_invitation, answer_invitation}

-- Accepting, or else rejecting.
abbrev pub answer_with : Bool → Env → String → String → Service (Unit {0})
answer_with true env = accept_invitation env
answer_with false env = reject_invitation env

abbrev pub status_of_answer : Bool → String
status_of_answer true = status_accepted
status_of_answer false = status_declined

abbrev pub already : Bool → String
already true = "invitation already accepted"
already false = "invitation already declined"

answer_step :
    (env : Env) (status type word uid aid : String) (t t' : Tables)
    → answer_invitation env status type word uid aid t ≡ returned tt t'
    → (p : Participant) × (get_participant_by_appointment_and_user aid uid t.group_tables ≡ some p)
      × (t'.group_tables ≡ update_participant_status aid uid status t.group_tables)
unfolding answer_invitation
answer_step env status type word uid aid t t' h =
    elim (Option-cases (get_participant_by_appointment_and_user aid uid t.group_tables)) [
      | inl missing ↦ absurd (ground (arith, missing))
      | inr (p, here) ↦ (p, here, ground (arith, here))
    ]

answered_status :
    (env : Env) (status type word uid aid : String) (t t' : Tables)
    → answer_invitation env status type word uid aid t ≡ returned tt t'
    → (p : Participant) × (get_participant_by_appointment_and_user aid uid t'.group_tables ≡ some p)
      × (p.status ≡ status)
answered_status env status type word uid aid t t' h =
    let (p, here, after) = answer_step env status type word uid aid t t' h in
    (
      record p { status = status },
      subst
          (λ g.
            get_participant_by_appointment_and_user aid uid g ≡ some (record p { status = status }))
          (sym after) (status-update aid uid status t.group_tables p here),
      refl,
    )

refused_again :
    (choice : Bool) (env : Env) (status type word uid aid : String) (t : Tables) (p : Participant)
    → get_participant_by_appointment_and_user aid uid t.group_tables ≡ some p
    → p.status ≡ status_of_answer choice
    → answer_invitation env status type word uid aid t ≡ failed (already choice) t
unfolding answer_invitation
refused_again true env status type word uid aid t p here is =
    ground (arith, here, eq_iff p.status status_accepted)
refused_again false env status type word uid aid t p here is =
    let open_for_this = subst (λ s. str_eq s status_accepted ≡ false) (sym is) refl in
    ground (arith, here, open_for_this, eq_iff p.status status_declined)

answered :
    (choice : Bool) (env : Env) (uid aid : String) (t t' : Tables)
    → answer_with choice env uid aid t ≡ returned tt t'
    → (p : Participant) × (get_participant_by_appointment_and_user aid uid t'.group_tables ≡ some p)
      × (p.status ≡ status_of_answer choice)
unfolding accept_invitation reject_invitation
answered true env uid aid t t' h = answered_status env status_accepted _ _ uid aid t t' h
answered false env uid aid t t' h = answered_status env status_declined _ _ uid aid t t' h

-- After an answer that went through, every further answer of the same user to the same appointment,
-- the same or the other one, fails with the error that names the first, and changes nothing.
pub answered_once :
    (first second : Bool) (env : Env) (uid aid : String) (t t' : Tables)
    → answer_with first env uid aid t ≡ returned tt t'
    → answer_with second env uid aid t' ≡ failed (already first) t'
unfolding accept_invitation reject_invitation
answered_once first true env uid aid t t' h =
    let (p, here, is) = answered first env uid aid t t' h in
    refused_again first env status_accepted _ _ uid aid t' p here is
answered_once first false env uid aid t t' h =
    let (p, here, is) = answered first env uid aid t t' h in
    refused_again first env status_declined _ _ uid aid t' p here is
