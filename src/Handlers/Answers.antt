-- ===== src/Handlers/Answers.antt =====
-- Answers to invitations, through the log of a leader and straight to the tables.
use agenda_distribuida.Prelude.{
  ℕ, ◌≡◌, refl, Bool, true, false, ◌||◌, String, Option, none, some, str_eq, arith, Option-cases,
  Bool-cases, inl, inr,
}
use agenda_distribuida.Messages.{LogEntry}
use agenda_distribuida.Groups.{Participant}
use agenda_distribuida.Appointments.{
  status_accepted, status_declined, get_participant_by_appointment_and_user,
  update_participant_status,
}
use agenda_distribuida.RaftAppointments.{InvitationStatus}
use agenda_distribuida.RaftAppointments.Answers.{answered_tables}
use agenda_distribuida.Tables.{Tables, Env}
use agenda_distribuida.Payloads.{Codec, IsFaithful}
use agenda_distribuida.RaftApplier.{run}
use agenda_distribuida.DomainPropose.{build, build_invitation_status}
use agenda_distribuida.DomainPropose.RoundTrip.{invitation_answer}
use agenda_distribuida.AppointmentService.{answer_invitation, accept_invitation, reject_invitation}
use agenda_distribuida.AppointmentService.Answered.{status_of_answer}
use agenda_distribuida.Handlers.{replicate, delegate}
use agenda_distribuida.Handlers.Appointments.{
  answer_through_log, bad_request, handle_accept_invitation, handle_reject_invitation,
}
use agenda_distribuida.Handlers.Paths.{Writes, own_applier, leader_site, single_site, replicated}

abbrev pub response : String → String → String → InvitationStatus
response aid uid status = record { appointment_id = aid; user_id = uid; status = status }

-- The answer of whoever calls, "" if nobody is known.
abbrev pub requested_answer : Env → Option String → String → String → InvitationStatus
requested_answer env caller appointment_id =
    response (env.digest.trim_space appointment_id) (elim caller [ none ↦ "" | some uid ↦ uid ])

built_answer :
    (codec : Codec) (now : ℕ) (aid uid status : String)
    → Writes codec.invitation (response aid uid status)
    → (e : LogEntry) × (build_invitation_status codec now aid uid status ≡ some e)
unfolding build_invitation_status build
built_answer codec now aid uid status total =
    let (s, written) = total in
    elim (Option-cases (build_invitation_status codec now aid uid status)) [
      | inl missing ↦ absurd (ground (arith, missing, written))
      | inr (e, is) ↦ (e, is)
    ]

-- An answer that the service writes.
answer_left :
    (env : Env) (status type word uid aid : String) (t : Tables) (p : Participant)
    → get_participant_by_appointment_and_user aid uid t.group_tables ≡ some p
    → str_eq p.status status_accepted ≡ false
    → str_eq p.status status_declined ≡ false
    → (delegate bad_request (answer_invitation env status type word uid aid) t).1.group_tables
      ≡ update_participant_status aid uid status t.group_tables
unfolding answer_invitation
answer_left env status type word uid aid t p here not_accepted not_declined =
    ground (arith, here, not_accepted, not_declined)

abbrev is_answered : Participant → Bool
is_answered p = str_eq p.status status_accepted || str_eq p.status status_declined

not_this :
    (choice : Bool) (p : Participant)
    → is_answered p ≡ false
    → str_eq p.status (status_of_answer choice) ≡ false
not_this true p h = ground (arith, h)
not_this false p h = ground (arith, h)

module _ (env : Env) (codec : Codec) (now : ℕ) (f : IsFaithful codec) where
  answer_logged :
      (aid uid status msg : String) (t : Tables) (p : Participant)
      → Writes codec.invitation (response aid uid status)
      → get_participant_by_appointment_and_user aid uid t.group_tables ≡ some p
      → str_eq p.status status ≡ false
      → (replicate
          (own_applier env codec now)
          (build_invitation_status codec now aid uid status)
          msg
          t).1.group_tables
        ≡ update_participant_status aid uid status t.group_tables
  unfolding run
  answer_logged aid uid status msg t p total here other =
      let (e, is) = built_answer codec now aid uid status total in
      let r = replicated env codec now (invitation_answer aid uid status) e msg t f is in
      ground (arith, r, answered_tables env (response aid uid status) t p here other)

  answer_log :
      (choice : Bool) (msg type word uid aid : String) (t : Tables)
      → Writes codec.invitation (response aid uid (status_of_answer choice))
      → (answer_through_log
          (leader_site env codec now)
          (own_applier env codec now)
          (status_of_answer choice)
          msg
          uid
          aid
          t).1.group_tables
        ≡ (delegate bad_request
            (answer_invitation env (status_of_answer choice) type word uid aid)
            t).1.group_tables
  unfolding answer_through_log answer_invitation
  answer_log choice msg type word uid aid t total =
      elim (Option-cases (get_participant_by_appointment_and_user aid uid t.group_tables)) [
        | inl missing ↦ ground (arith, missing)
        | inr (p, here) ↦ elim (Bool-cases (is_answered p)) [
          | inl answered ↦ ground (arith, here, answered)
          | inr open_still ↦
              let status = status_of_answer choice in
              let direct =
                answer_left env status type word uid aid t p here (ground (arith, open_still))
                  (ground (arith, open_still)) in
              let logged =
                answer_logged aid uid status msg t p total here (not_this choice p open_still) in
              ground (arith, here, open_still, direct, logged)
        ]
      ]

  accept_either_way :
      (caller : Option String) (appointment_id : String) (t : Tables)
      → Writes codec.invitation (requested_answer env caller appointment_id status_accepted)
      → (handle_accept_invitation
          (leader_site env codec now)
          caller
          appointment_id
          t).1.group_tables
        ≡ (handle_accept_invitation
            (single_site env codec now)
            caller
            appointment_id
            t).1.group_tables
  unfolding handle_accept_invitation accept_invitation
  accept_either_way none appointment_id t total = refl
  accept_either_way (some uid) appointment_id t total = ground (
    arith,
    answer_log true "failed to replicate invitation accept" "invitation_accepted" "accepted" uid
        (env.digest.trim_space appointment_id) t total,
  )

  reject_either_way :
      (caller : Option String) (appointment_id : String) (t : Tables)
      → Writes codec.invitation (requested_answer env caller appointment_id status_declined)
      → (handle_reject_invitation
          (leader_site env codec now)
          caller
          appointment_id
          t).1.group_tables
        ≡ (handle_reject_invitation
            (single_site env codec now)
            caller
            appointment_id
            t).1.group_tables
  unfolding handle_reject_invitation reject_invitation
  reject_either_way none appointment_id t total = refl
  reject_either_way (some uid) appointment_id t total = ground (
    arith,
    answer_log false "failed to replicate invitation reject" "invitation_declined" "declined" uid
        (env.digest.trim_space appointment_id) t total,
  )

-- A request that accepts or rejects an invitation leaves the same groups, members, appointments and
-- participants on a leader, whose log is applied at once, as on a node without a log, if the payloads
-- of the two requests can be written and payloads read back.
pub answers_either_way :
    (env : Env) (codec : Codec) (now : ℕ) (caller : Option String) (appointment_id : String)
    (t : Tables)
    → IsFaithful codec
    → Writes codec.invitation (requested_answer env caller appointment_id status_accepted)
    → Writes codec.invitation (requested_answer env caller appointment_id status_declined)
    → ((handle_accept_invitation (leader_site env codec now) caller appointment_id t).1.group_tables
        ≡ (handle_accept_invitation
            (single_site env codec now)
            caller
            appointment_id
            t).1.group_tables)
      × ((handle_reject_invitation
            (leader_site env codec now)
            caller
            appointment_id
            t).1.group_tables
          ≡ (handle_reject_invitation
              (single_site env codec now)
              caller
              appointment_id
              t).1.group_tables)
answers_either_way env codec now caller appointment_id t f accept_written reject_written = (
  accept_either_way env codec now f caller appointment_id t accept_written,
  reject_either_way env codec now f caller appointment_id t reject_written,
)
