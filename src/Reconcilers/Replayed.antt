-- ===== src/Reconcilers/Replayed.antt =====
-- What a reconciled answer and a reconciled notification leave behind.
use agenda_distribuida.Prelude.{
  ℕ, true, false, ◌≡◌, ◌≢◌, sym, ◌∙◌, ap, subst, inl, inr, Option, none, some, String, arith,
  Bool-cases, str_eq, eq_iff,
}
use agenda_distribuida.Text.{is_blank}
use agenda_distribuida.Users.{User, get_user_by_username}
use agenda_distribuida.Groups.{Participant}
use agenda_distribuida.Appointments.{get_participant_by_appointment_and_user}
use agenda_distribuida.RaftAppointments.{InvitationStatus, apply_invitation}
use agenda_distribuida.RaftAppointments.Answers.{participant_after}
use agenda_distribuida.Tables.{Tables, Env}
use agenda_distribuida.Payloads.{Codec, IsFaithful}
use agenda_distribuida.RaftApplier.{run}
use agenda_distribuida.Events.{Event}
use agenda_distribuida.ClusterHttp.Listing.{Layout}
use agenda_distribuida.DomainPropose.{build, build_invitation_status}
use agenda_distribuida.DomainPropose.RoundTrip.{invitation_answer, built}
use agenda_distribuida.Handlers.Paths.{Writes, own_applier}
use agenda_distribuida.Reconcilers.{propose_repair, repair}
use agenda_distribuida.Reconcilers.Invitations.{
  InvitationPayload, local_appointment, has_status, repair_of_answer,
}
use agenda_distribuida.Reconcilers.Again.{proposed_tables}

-- The event of an answer, as the tables know it: the answer, the user, the appointment and the row.
pub record IsAnswer (l : Layout) (decode : String → Option InvitationPayload) (e : Event)
    (t : Tables) (p : InvitationPayload) (u : User) (aid : String) (x : Participant) : Type 0 where
  pub has_payload : str_eq e.payload "" ≡ false
  pub decoded : decode e.payload ≡ some p
  pub has_name : is_blank p.username ≡ false
  pub user : get_user_by_username p.username t.users ≡ some u
  pub appointment : local_appointment l p t ≡ some aid
  pub participant : get_participant_by_appointment_and_user aid u.id t.group_tables ≡ some x

abbrev given_answer : InvitationPayload → User → String → InvitationStatus
given_answer p u aid = record { appointment_id = aid; user_id = u.id; status = p.status }

module _ (env : Env) (l : Layout) (decode : String → Option InvitationPayload) (codec : Codec)
    (e : Event) (t : Tables) (p : InvitationPayload) (u : User) (aid : String) (x : Participant)
    (a : IsAnswer l decode e t p u aid x) where
  asks_other :
      str_eq x.status p.status ≡ false
      → repair_of_answer l decode e t ≡ some (invitation_answer aid u.id p.status)
  unfolding repair_of_answer has_status
  asks_other other =
      ground
        (arith, a.has_payload, a.decoded, a.has_name, a.user, a.appointment, a.participant, other)

  asks_nothing : str_eq x.status p.status ≡ true → repair_of_answer l decode e t ≡ none
  unfolding repair_of_answer has_status
  asks_nothing same =
      ground
        (arith, a.has_payload, a.decoded, a.has_name, a.user, a.appointment, a.participant, same)

  answer_written :
      (now : ℕ)
      → Writes codec.invitation (given_answer p u aid)
      → built codec now (invitation_answer aid u.id p.status) ≢ none
  unfolding build_invitation_status build
  answer_written now (s, written) = ground (arith, written)

  proposed_answer :
      (now : ℕ)
      → IsFaithful codec
      → Writes codec.invitation (given_answer p u aid)
      → str_eq x.status p.status ≡ false
      → repair
          (λ e. e.created_at)
          (repair_of_answer l decode)
          codec
          (own_applier env codec 0)
          now
          e
          t
        ≡ (apply_invitation env (given_answer p u aid) t).1
  unfolding repair run
  proposed_answer now f total other =
      let q = invitation_answer aid u.id p.status in
      ap (λ d. propose_repair codec (own_applier env codec 0) now d t) (asks_other other)
      ∙ elim (proposed_tables env codec f now q t) [
        | inl unwritten ↦ absurd (answer_written now total unwritten)
        | inr done ↦ done
      ]

  nothing_done :
      (now : ℕ)
      → str_eq x.status p.status ≡ true
      → repair
          (λ e. e.created_at)
          (repair_of_answer l decode)
          codec
          (own_applier env codec 0)
          now
          e
          t
        ≡ t
  unfolding repair propose_repair
  nothing_done now same =
      ap (λ d. propose_repair codec (own_applier env codec 0) now d t) (asks_nothing same)

-- The answer in another node's event replaces whatever answer the participant has given here, also
-- one that was given later: after a leader has handled the event, the participant's status is the
-- event's. User, appointment and participant are known here, the leader's log is applied at once, the
-- payload can be written and payloads read back.
pub replayed_answer_wins :
    (env : Env) (l : Layout) (decode : String → Option InvitationPayload) (codec : Codec) (now : ℕ)
    (e : Event) (t : Tables) (p : InvitationPayload) (u : User) (aid : String) (x : Participant)
    → IsAnswer l decode e t p u aid x
    → IsFaithful codec
    → Writes codec.invitation (record { appointment_id = aid; user_id = u.id; status = p.status })
    → let own = own_applier env codec 0 in
      let t' = repair (λ e. e.created_at) (repair_of_answer l decode) codec own now e t in
      (y : Participant) × (get_participant_by_appointment_and_user aid u.id t'.group_tables
        ≡ some y)
      × (y.status ≡ p.status)
replayed_answer_wins env l decode codec now e t p u aid x a f total =
    let Answered : Tables → Type 0 = λ t'.
      (y : Participant) × (get_participant_by_appointment_and_user aid u.id t'.group_tables
        ≡ some y)
      × (y.status ≡ p.status) in
    elim (Bool-cases (str_eq x.status p.status)) [
      | inl same ↦
          subst Answered (sym (nothing_done env l decode codec e t p u aid x a now same))
            (x, a.participant, (eq_iff x.status p.status).0 same)
      | inr other ↦
          subst Answered
            (sym (proposed_answer env l decode codec e t p u aid x a now f total other))
            (participant_after env (given_answer p u aid) t x a.participant)
    ]
