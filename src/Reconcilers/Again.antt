-- ===== src/Reconcilers/Again.antt =====
-- When an event that a reconciler handles again changes nothing.
pub mod Accounts
pub mod Memberships
pub mod Meetings
pub mod Gatherings
pub mod Replies
pub mod Reports
use agenda_distribuida.Prelude.{
  ℕ, String, ◌≡◌, refl, sym, ◌∙◌, ap, subst, ◌⊎◌, inl, inr, Option, none, some, arith, Option-cases,
}
use agenda_distribuida.Messages.{LogEntry}
use agenda_distribuida.Tables.{Tables, Env}
use agenda_distribuida.Payloads.{Coder, Codec, IsFaithful}
use agenda_distribuida.RaftApplier.{raft_applier, run}
use agenda_distribuida.DomainPropose.{
  build, build_appt_create_personal, build_repair_ensure_user, build_appt_create_group,
  build_appt_update, build_appt_delete, build_user_create, build_user_update_profile,
  build_user_update_password, build_group_create, build_group_update, build_group_delete,
  build_group_member_op, build_invitation_status, build_repair_user_clear_email_if_matches,
  build_repair_ensure_group_member, build_repair_ensure_participant,
  build_repair_ensure_notification,
}
use agenda_distribuida.DomainPropose.RoundTrip.{
  Proposal, new_personal, new_meeting, appt_details, appt_deletion, new_user, user_profile,
  user_password, new_group, group_details, group_deletion, member_addition, member_rank,
  member_removal, invitation_answer, email_repair, user_repair, member_repair, participant_repair,
  notification_repair, built, meant, built_entry_applies,
}
use agenda_distribuida.Handlers.Paths.{own_applier}
use agenda_distribuida.Reconcilers.{propose_entry, propose_repair, repair}

-- Whether a payload can be written does not depend on the time.
unbuilt : (c : Codec) (now now' : ℕ) (q : Proposal) → built c now q ≡ none → built c now' q ≡ none
unfolding build build_appt_create_personal build_repair_ensure_user build_appt_create_group
    build_appt_update build_appt_delete build_user_create build_user_update_profile
    build_user_update_password build_group_create build_group_update build_group_delete
    build_group_member_op build_invitation_status build_repair_user_clear_email_if_matches
    build_repair_ensure_group_member build_repair_ensure_participant
    build_repair_ensure_notification
unbuilt c now now' (new_personal owner a) h = ground (arith, h)
unbuilt c now now' (new_meeting owner a) h = ground (arith, h)
unbuilt c now now' (appt_details a) h = ground (arith, h)
unbuilt c now now' (appt_deletion id) h = ground (arith, h)
unbuilt c now now' (new_user u) h = ground (arith, h)
unbuilt c now now' (user_profile u) h = ground (arith, h)
unbuilt c now now' (user_password id hash) h = ground (arith, h)
unbuilt c now now' (new_group g) h = ground (arith, h)
unbuilt c now now' (group_details id name text) h = ground (arith, h)
unbuilt c now now' (group_deletion id) h = ground (arith, h)
unbuilt c now now' (member_addition g u rank) h = ground (arith, h)
unbuilt c now now' (member_rank g u rank) h = ground (arith, h)
unbuilt c now now' (member_removal g u rank) h = ground (arith, h)
unbuilt c now now' (invitation_answer a u status) h = ground (arith, h)
unbuilt c now now' (email_repair id email) h = ground (arith, h)
unbuilt c now now' (user_repair u) h = ground (arith, h)
unbuilt c now now' (member_repair g u rank) h = ground (arith, h)
unbuilt c now now' (participant_repair a u status opt) h = ground (arith, h)
unbuilt c now now' (notification_repair u type payload) h = ground (arith, h)

abbrev pub after : Env → Proposal → Tables → Tables
after env q t = (run env (meant q) t).1

module _ (env : Env) (codec : Codec) (f : IsFaithful codec) where
  -- A proposal is either never written or does what it means.
  pub proposed_tables :
      (now : ℕ) (q : Proposal) (t : Tables)
      → (built codec now q ≡ none)
        ⊎ (propose_repair codec (own_applier env codec 0) now (some q) t ≡ after env q t)
  unfolding propose_repair
  proposed_tables now q t = elim (Option-cases (built codec now q)) [
    | inl failed ↦ inl failed
    | inr (e, is) ↦ inr (ground (arith, is, built_entry_applies env codec now q e t f is))
  ]

  nothing_proposed :
      (now : ℕ) (q : Proposal) (t : Tables)
      → built codec now q ≡ none
      → propose_repair codec (own_applier env codec 0) now (some q) t ≡ t
  unfolding propose_repair
  nothing_proposed now q t h = ground (arith, h)

  settled :
      (now : ℕ) (d : Option Proposal) (q : Proposal) (t : Tables)
      → (d ≡ none) ⊎ (d ≡ some q)
      → after env q t ≡ t
      → propose_repair codec (own_applier env codec 0) now d t ≡ t
  unfolding propose_repair
  settled now d q t either same = elim either [
    | inl missing ↦ ap (λ x. propose_repair codec (own_applier env codec 0) now x t) missing
    | inr asks ↦
        ap (λ x. propose_repair codec (own_applier env codec 0) now x t) asks
        ∙ elim (proposed_tables now q t) [
          | inl failed ↦ nothing_proposed now q t failed
          | inr done ↦ done ∙ same
        ]
  ]

  -- Where a proposal takes an event to tables that want nothing more, or the same again, and the same
  -- again does nothing.
  pub handled_again :
      {E : Type 0} (at : E → ℕ) (decide : E → Tables → Option Proposal) (e : E) (now now' : ℕ)
      (t : Tables)
      → ((q : Proposal)
          → decide e t ≡ some q
          → ((decide e (after env q t) ≡ none) ⊎ (decide e (after env q t) ≡ some q))
            × (after env q (after env q t) ≡ after env q t))
      → repair at decide codec
          (own_applier env codec 0)
          now'
          e
          (repair at decide codec (own_applier env codec 0) now e t)
        ≡ repair at decide codec (own_applier env codec 0) now e t
  unfolding repair
  handled_again at decide e now now' t rest =
      let propose : ℕ → Option Proposal → Tables → Tables =
        propose_repair codec (own_applier env codec 0) in
      let once : Tables → Tables = λ t. propose now' (decide e t) t in
      elim (Option-cases (decide e t)) [
        | inl missing ↦
            let first = ap (λ d. propose now d t) missing in
            ap once first ∙ ap (λ d. propose now' d t) missing ∙ sym first
        | inr (q, asks) ↦
            let asked = ap (λ d. propose now d t) asks in
            elim (proposed_tables now q t) [
              | inl failed ↦
                  let first = asked ∙ nothing_proposed now q t failed in
                  ap once first
                  ∙ ap (λ d. propose now' d t) asks
                  ∙ nothing_proposed now' q t (unbuilt codec now now' q failed)
                  ∙ sym first
              | inr done ↦
                  let first = asked ∙ done in
                  let (either, same) = rest q asks in
                  ap once first
                  ∙ settled now' (decide e (after env q t)) q (after env q t) either same
                  ∙ sym first
            ]
      ]
