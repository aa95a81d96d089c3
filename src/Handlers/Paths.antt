-- ===== src/Handlers/Paths.antt =====
-- Requests that change or remove a member, through the log of a leader and straight to the tables.
use agenda_distribuida.Prelude.{
  ℕ, ◌≡◌, refl, ◌∙◌, Bool, true, false, String, Option, none, some, arith, Option-cases, inl, inr,
  find-none, if◌then◌else◌,
}
use agenda_distribuida.Messages.{LogEntry}
use agenda_distribuida.Apply.{is_ignorable_apply_error}
use agenda_distribuida.Ops.{op_group_member_update, op_group_member_remove}
use agenda_distribuida.Groups.{
  GroupTables, is_member, get_member_rank, update_group_member, remove_group_member,
}
use agenda_distribuida.RaftGroups.{apply_group_command, apply_member_remove}
use agenda_distribuida.Tables.{Tables, Env}
use agenda_distribuida.Payloads.{Coder, MemberPayload, Codec, IsFaithful}
use agenda_distribuida.RaftApplier.{raft_applier, run}
use agenda_distribuida.DomainPropose.{build, new_entry, build_group_member_op}
use agenda_distribuida.DomainPropose.RoundTrip.{
  Proposal, member_rank, member_removal, built, meant, built_entry_applies,
}
use agenda_distribuida.GroupService.{update_member, remove_member}
use agenda_distribuida.AppointmentService.{Consensus, Site}
use agenda_distribuida.Handlers.{
  Reply, done, refused, crashed, proposed_reply, replicate, delegate, forbidden_or_error,
}
use agenda_distribuida.Handlers.Members.{
  update_through_log, remove_through_log, handle_update_member, handle_remove_member,
}

-- applyCommitted drops the errors that it ignores.
abbrev pub settled : LogEntry → Option String × Tables → Option String × Tables
settled e (err, t) = (if is_ignorable_apply_error e err then none else err, t)

module _ (env : Env) (codec : Codec) (now : ℕ) where
  -- A leader whose entries are applied at once, and a node without a log.
  abbrev pub own_applier : Consensus
  own_applier = record { leads = true; propose = λ e t. settled e (raft_applier env codec e t) }

  abbrev pub leader_site : Site
  leader_site = record { env = env; codec = codec; now = now; consensus = some own_applier }

  abbrev pub single_site : Site
  single_site = record { env = env; codec = codec; now = now; consensus = none }

  pub replicated :
      (q : Proposal) (e : LogEntry) (msg : String) (t : Tables)
      → IsFaithful codec
      → built codec now q ≡ some e
      → replicate own_applier (built codec now q) msg t
        ≡ proposed_reply msg (settled e (run env (meant q) t))
  replicated q e msg t f h =
      let applied = built_entry_applies env codec now q e t f h in ground (arith, h, applied)

-- Whether a request went through.
abbrev pub went_through : {A : Type 0} → Reply A → Bool
went_through (done a) = true
went_through (refused code msg) = false
went_through crashed = false

-- json.Marshal does not fail on the payload.
abbrev pub Writes : {P : Type 0} → Coder P → P → Type 0
Writes c p = (s : String) × (c.encode p ≡ some s)

abbrev pub membership : String → String → ℕ → MemberPayload
membership gid uid rank = record { group_id = gid; user_id = uid; rank = rank }

-- The member that a request names, and the rank in its body, if any.
abbrev pub named_member : Env → String → String → ℕ → MemberPayload
named_member env group_id user_id =
    membership (env.digest.trim_space group_id) (env.digest.trim_space user_id)

abbrev pub rank_in : Option (Option ℕ) → ℕ
rank_in (some (some rank)) = rank
rank_in _ = 0

built_member :
    (codec : Codec) (now : ℕ) (op gid uid : String) (rank : ℕ)
    → Writes codec.group_member (membership gid uid rank)
    → (e : LogEntry) × (build_group_member_op codec now op gid uid rank ≡ some e)
unfolding build_group_member_op build
built_member codec now op gid uid rank total =
    let (s, written) = total in (new_entry now "group_member" gid op s, ground (arith, written))

-- Two runs that go through or are refused alike, and leave the same tables.
abbrev pub Alike : {A : Type 0} → Reply A × Tables → Reply A × Tables → Type 0
Alike (r, t) (r', t') = (went_through r ≡ went_through r') × (t ≡ t')

member_removed :
    (gid uid : String) (rank : ℕ) (t : GroupTables)
    → get_member_rank gid uid t ≡ some rank
    → (remove_group_member gid uid t).0 ≡ none
unfolding get_member_rank remove_group_member
member_removed gid uid rank t member =
    ground (arith, find-none (is_member gid uid) t.members, member)

module _ (env : Env) (codec : Codec) (now : ℕ) (f : IsFaithful codec) where
  update_logged :
      (gid uid msg : String) (rank : ℕ) (t : Tables)
      → Writes codec.group_member (membership gid uid rank)
      → replicate
          (own_applier env codec now)
          (build_group_member_op codec now op_group_member_update gid uid rank)
          msg
          t
        ≡ (done tt, record t { group_tables = update_group_member gid uid rank t.group_tables })
  unfolding run apply_group_command is_ignorable_apply_error
  update_logged gid uid msg rank t total =
      let (e, is) = built_member codec now op_group_member_update gid uid rank total in
      replicated env codec now (member_rank gid uid rank) e msg t f is ∙ refl

  update_log :
      (code : String → ℕ) (actor gid uid : String) (rank : ℕ) (t : Tables)
      → Writes codec.group_member (membership gid uid rank)
      → Alike
          (update_through_log
            (leader_site env codec now)
            (own_applier env codec now)
            actor
            gid
            uid
            rank
            t)
          (delegate code (update_member actor gid uid rank) t)
  unfolding update_through_log update_member
  update_log code actor gid uid rank t total =
      let r = update_logged gid uid "failed to replicate member update" rank t total in
      elim (Option-cases (get_member_rank gid actor t.group_tables)) [
        | inl unranked ↦ ground (arith, unranked)
        | inr (ra, ha) ↦ elim (Option-cases (get_member_rank gid uid t.group_tables)) [
          | inl unranked ↦ ground (arith, ha, unranked)
          | inr (rb, hb) ↦ ground (arith, ha, hb, r)
        ]
      ]

  remove_logged :
      (gid uid msg : String) (rank : ℕ) (t : Tables)
      → Writes codec.group_member (membership gid uid 0)
      → get_member_rank gid uid t.group_tables ≡ some rank
      → replicate
          (own_applier env codec now)
          (build_group_member_op codec now op_group_member_remove gid uid 0)
          msg
          t
        ≡ (done tt, record t { group_tables = (remove_group_member gid uid t.group_tables).1 })
  unfolding run apply_group_command apply_member_remove
  remove_logged gid uid msg rank t total member =
      let (e, is) = built_member codec now op_group_member_remove gid uid 0 total in
      replicated env codec now (member_removal gid uid 0) e msg t f is
      ∙ ground (arith, member_removed gid uid rank t.group_tables member)

  remove_log :
      (code : String → ℕ) (actor gid uid : String) (t : Tables)
      → Writes codec.group_member (membership gid uid 0)
      → Alike
          (remove_through_log
            (leader_site env codec now)
            (own_applier env codec now)
            actor
            gid
            uid
            t)
          (delegate code (remove_member actor gid uid) t)
  unfolding remove_through_log remove_member
  remove_log code actor gid uid t total =
      elim (Option-cases (get_member_rank gid actor t.group_tables)) [
        | inl unranked ↦ ground (arith, unranked)
        | inr (ra, ha) ↦ elim (Option-cases (get_member_rank gid uid t.group_tables)) [
          | inl unranked ↦ ground (arith, ha, unranked)
          | inr (rb, hb) ↦
              let r = remove_logged gid uid "failed to replicate member remove" rb t total hb in
              ground (arith, ha, hb, r, member_removed gid uid rb t.group_tables hb)
        ]
      ]

  update_either_way :
      (caller : Option String) (group_id user_id : String) (body : Option (Option ℕ)) (t : Tables)
      → Writes codec.group_member (named_member env group_id user_id (rank_in body))
      → Alike
          (handle_update_member (leader_site env codec now) caller group_id user_id body t)
          (handle_update_member (single_site env codec now) caller group_id user_id body t)
  unfolding handle_update_member
  update_either_way none group_id user_id body t total = (refl, refl)
  update_either_way (some actor) group_id user_id none t total = ground arith
  update_either_way (some actor) group_id user_id (some none) t total = ground arith
  update_either_way (some actor) group_id user_id (some (some rank)) t total =
      let trim = env.digest.trim_space in
      ground
        (arith, update_log forbidden_or_error actor (trim group_id) (trim user_id) rank t total)

  remove_either_way :
      (caller : Option String) (group_id user_id : String) (t : Tables)
      → Writes codec.group_member (named_member env group_id user_id 0)
      → Alike
          (handle_remove_member (leader_site env codec now) caller group_id user_id t)
          (handle_remove_member (single_site env codec now) caller group_id user_id t)
  unfolding handle_remove_member
  remove_either_way none group_id user_id t total = (refl, refl)
  remove_either_way (some actor) group_id user_id t total =
      let trim = env.digest.trim_space in
      ground (arith, remove_log forbidden_or_error actor (trim group_id) (trim user_id) t total)

-- A request that changes a member's rank or removes a member goes through on a leader, whose log is
-- applied at once, exactly when it does on a node without a log, and leaves the same tables there,
-- if the payloads of the two requests can be written and payloads read back.
pub members_either_way :
    (env : Env) (codec : Codec) (now : ℕ) (caller : Option String) (group_id user_id : String)
    (body : Option (Option ℕ)) (t : Tables)
    → IsFaithful codec
    → Writes codec.group_member (named_member env group_id user_id (rank_in body))
    → Writes codec.group_member (named_member env group_id user_id 0)
    → Alike
        (handle_update_member (leader_site env codec now) caller group_id user_id body t)
        (handle_update_member (single_site env codec now) caller group_id user_id body t)
      × Alike
          (handle_remove_member (leader_site env codec now) caller group_id user_id t)
          (handle_remove_member (single_site env codec now) caller group_id user_id t)
members_either_way env codec now caller group_id user_id body t f update_written remove_written = (
  update_either_way env codec now f caller group_id user_id body t update_written,
  remove_either_way env codec now f caller group_id user_id t remove_written,
)
