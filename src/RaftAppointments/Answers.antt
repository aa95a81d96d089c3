-- ===== src/RaftAppointments/Answers.antt =====
-- An answer to an invitation that is applied again.
use agenda_distribuida.Prelude.{
  ◌≡◌, ◌≢◌, refl, sym, subst, Bool-cases, false, String, none, some, arith, str_eq, eq_iff,
  if◌then◌else◌, find-map, find_holds, Option-cases, inl, inr,
}
use agenda_distribuida.Groups.{Participant, GroupTables}
use agenda_distribuida.Appointments.{
  is_participant, get_participant_by_appointment_and_user, update_participant_status,
}
use agenda_distribuida.Tables.{Tables, Env}
use agenda_distribuida.RaftAppointments.{InvitationStatus, tell_owner, set_answer, apply_invitation}

abbrev with_status : String → String → String → Participant → Participant
with_status a u status p = if is_participant a u p then (record p { status = status }) else p

pub status-update :
    (a u status : String) (t : GroupTables) (p : Participant)
    → get_participant_by_appointment_and_user a u t ≡ some p
    → get_participant_by_appointment_and_user a u (update_participant_status a u status t)
      ≡ some (record p { status = status })
unfolding get_participant_by_appointment_and_user update_participant_status
status-update a u status t p known = ground (
  arith,
  known,
  find-map (with_status a u status) (is_participant a u) t.participants (λ x. ground arith),
  find_holds (is_participant a u) t.participants p,
)

pub group_tables-tell_owner :
    (env : Env) (p : InvitationStatus) (t : Tables)
    → (tell_owner env p t).1.group_tables ≡ t.group_tables
unfolding tell_owner
group_tables-tell_owner env p t = ground arith

already :
    (env : Env) (p : InvitationStatus) (t : Tables) (x : Participant)
    → get_participant_by_appointment_and_user p.appointment_id p.user_id t.group_tables ≡ some x
    → x.status ≡ p.status
    → apply_invitation env p t ≡ (none, t)
unfolding apply_invitation
already env p t x here same = ground (arith, here, eq_iff x.status p.status)

pub answered_tables :
    (env : Env) (p : InvitationStatus) (t : Tables) (x : Participant)
    → get_participant_by_appointment_and_user p.appointment_id p.user_id t.group_tables ≡ some x
    → str_eq x.status p.status ≡ false
    → (apply_invitation env p t).1.group_tables
      ≡ update_participant_status p.appointment_id p.user_id p.status t.group_tables
unfolding apply_invitation set_answer
answered_tables env p t x here other =
    let told : Tables = record t {
      group_tables = update_participant_status p.appointment_id p.user_id p.status t.group_tables;
    } in
    ground (arith, here, group_tables-tell_owner env p told)

pub participant_after :
    (env : Env) (p : InvitationStatus) (t : Tables) (x : Participant)
    → get_participant_by_appointment_and_user p.appointment_id p.user_id t.group_tables ≡ some x
    → (y : Participant) × (get_participant_by_appointment_and_user p.appointment_id p.user_id
          (apply_invitation env p t).1.group_tables
        ≡ some y)
      × (y.status ≡ p.status)
participant_after env p t x here = elim (Bool-cases (str_eq x.status p.status)) [
  | inl same ↦
      let equal = (eq_iff x.status p.status).0 same in
      let kept = already env p t x here equal in
      (
        x,
        subst
            (λ r.
              get_participant_by_appointment_and_user p.appointment_id p.user_id r.1.group_tables
              ≡ some x)
            (sym kept) here,
        equal,
      )
  | inr other ↦ (
    record x { status = p.status },
    subst
        (λ g.
          get_participant_by_appointment_and_user p.appointment_id p.user_id g
          ≡ some (record x { status = p.status }))
        (sym (answered_tables env p t x here other))
        (status-update p.appointment_id p.user_id p.status t.group_tables x here),
    refl,
  )
]

-- The answer of someone who takes part in the appointment, applied again, succeeds and changes
-- nothing more, also when it failed the first time.
pub answer_again :
    (env : Env) (p : InvitationStatus) (t : Tables)
    → get_participant_by_appointment_and_user p.appointment_id p.user_id t.group_tables ≢ none
    → apply_invitation env p (apply_invitation env p t).1 ≡ (none, (apply_invitation env p t).1)
answer_again env p t known =
    elim (Option-cases
      (get_participant_by_appointment_and_user p.appointment_id p.user_id t.group_tables)) [
        | inl missing ↦ absurd (known missing)
        | inr (x, here) ↦
            let (y, there, answered) = participant_after env p t x here in
            already env p (apply_invitation env p t).1 y there answered
      ]
