-- ===== src/DomainPropose/RoundTrip.antt =====
-- What the entries that domain_propose.go builds do at their application.
use agenda_distribuida.Prelude.{
  ℕ, ◌≡◌, refl, sym, subst, ◌∙◌, Bool, String, Option, some, arith, str_eq, if◌then◌else◌,
  Option-cases, inl, inr, Bool-cases,
}
use agenda_distribuida.Messages.{LogEntry}
use agenda_distribuida.Ops.{
  op_group_member_add, op_group_member_update, op_group_member_remove, op_invitation_accept,
  op_invitation_reject,
}
use agenda_distribuida.Users.{User}
use agenda_distribuida.Groups.{Group, Appointment}
use agenda_distribuida.RaftGroups.{
  create, update, remove, member_add, member_update, member_remove, ensure_member,
}
use agenda_distribuida.Appointments.{group_signature, status_declined}
use agenda_distribuida.Tables.{Tables, Env}
use agenda_distribuida.Payloads.{Coder, Codec, ReadsBack, IsFaithful}
use agenda_distribuida.RaftApplier.{
  Command, create_personal, create_group_appt, update_appt, delete_appt, create_user,
  update_profile, update_user_password, on_group, answer, clear_email, ensure_known, ensure_invited,
  ensure_told, command, read, decode_command, run, raft_applier, pair_command, member_command,
}
use agenda_distribuida.DomainPropose.{
  build, build_appt_create_personal, build_repair_ensure_user, build_appt_create_group,
  build_appt_update, build_appt_delete, build_user_create, build_user_update_profile,
  build_user_update_password, build_group_create, build_group_update, build_group_delete,
  build_group_member_op, build_invitation_status, build_repair_user_clear_email_if_matches,
  build_repair_ensure_group_member, build_repair_ensure_participant,
  build_repair_ensure_notification,
}

-- The calls of the builders.
pub data Proposal : Type 0 where
  new_personal : String → Appointment → Proposal
  new_meeting : String → Appointment → Proposal
  appt_details : Appointment → Proposal
  appt_deletion : String → Proposal
  new_user : User → Proposal
  user_profile : User → Proposal
  user_password : String → String → Proposal
  new_group : Group → Proposal
  group_details : String → Option String → Option String → Proposal
  group_deletion : String → Proposal
  member_addition : String → String → ℕ → Proposal
  member_rank : String → String → ℕ → Proposal
  member_removal : String → String → ℕ → Proposal
  invitation_answer : String → String → String → Proposal
  email_repair : String → String → Proposal
  user_repair : User → Proposal
  member_repair : String → String → ℕ → Proposal
  participant_repair : String → String → String → Bool → Proposal
  notification_repair : String → String → String → Proposal

abbrev pub built : Codec → ℕ → Proposal → Option LogEntry
built c now (new_personal owner a) = build_appt_create_personal c now owner a
built c now (new_meeting owner a) = build_appt_create_group c now owner a
built c now (appt_details a) = build_appt_update c now a
built c now (appt_deletion id) = build_appt_delete c now id
built c now (new_user u) = build_user_create c now u
built c now (user_profile u) = build_user_update_profile c now u
built c now (user_password id hash) = build_user_update_password c now id hash
built c now (new_group g) = build_group_create c now g
built c now (group_details id name text) = build_group_update c now id name text
built c now (group_deletion id) = build_group_delete c now id
built c now (member_addition g u rank) = build_group_member_op c now op_group_member_add g u rank
built c now (member_rank g u rank) = build_group_member_op c now op_group_member_update g u rank
built c now (member_removal g u rank) = build_group_member_op c now op_group_member_remove g u rank
built c now (invitation_answer a u status) = build_invitation_status c now a u status
built c now (email_repair id email) = build_repair_user_clear_email_if_matches c now id email
built c now (user_repair u) = build_repair_ensure_user c now u
built c now (member_repair g u rank) = build_repair_ensure_group_member c now g u rank
built c now (participant_repair a u status opt) =
    build_repair_ensure_participant c now a u status opt
built c now (notification_repair u type payload) =
    build_repair_ensure_notification c now u type payload

-- What each call asks for.
abbrev pub meant : Proposal → Command
meant (new_personal owner a) = create_personal (record {
  title = a.title;
  description = a.description;
  owner_id = owner;
  start_ts = a.start_ts;
  end_ts = a.end_ts;
  privacy = a.privacy;
})
meant (new_meeting owner a) = create_group_appt (record {
  title = a.title;
  description = a.description;
  owner_id = owner;
  group_id = group_signature a;
  start_ts = a.start_ts;
  end_ts = a.end_ts;
  privacy = a.privacy;
})
meant (appt_details a) = update_appt (record {
  appointment_id = a.id;
  title = some a.title;
  description = some a.description;
  start_ts = some a.start_ts;
  end_ts = some a.end_ts;
  privacy = some a.privacy;
})
meant (appt_deletion id) = delete_appt id
meant (new_user u) = create_user (record u { id = "" })
meant (user_profile u) = update_profile (record {
  user_id = u.id;
  username = some u.username;
  email = some u.email;
  display_name = some u.display_name;
})
meant (user_password id hash) = update_user_password id hash
meant (new_group g) = on_group (
    create (record {
      name = g.name;
      description = g.description;
      creator_id = g.creator_id;
      creator_user = g.creator_username;
      group_type = g.group_type;
    }))
meant (group_details id name text) =
    on_group (update (record { group_id = id; name = name; description = text }))
meant (group_deletion id) = on_group (remove id)
meant (member_addition g u rank) = on_group (member_add g u rank)
meant (member_rank g u rank) = on_group (member_update g u rank)
meant (member_removal g u rank) = on_group (member_remove g u)
meant (invitation_answer a u status) =
    answer (record { appointment_id = a; user_id = u; status = status })
meant (email_repair id email) = clear_email id email
meant (user_repair u) = ensure_known u
meant (member_repair g u rank) = on_group (ensure_member g u rank)
meant (participant_repair a u status opt) =
    ensure_invited (record { appointment_id = a; user_id = u; status = status; is_optional = opt })
meant (notification_repair u type payload) =
    ensure_told (record { user_id = u; type = type; payload = payload })

module _ {P : Type 0} (coder : Coder P) (make : P → Command) where
  read-build :
      (p : P) (now : ℕ) (aggregate id op : String) (e : LogEntry)
      → ReadsBack coder
      → build coder p now aggregate id op ≡ some e
      → (e.op ≡ op) × (read coder make e.payload ≡ command (make p))
  unfolding build read
  read-build p now aggregate id op e back h = elim (Option-cases (coder.encode p)) [
    | inl failed ↦ ground (arith, failed)
    | inr (s, written) ↦ ground (arith, written, back p s)
  ]

  -- Where the switch takes the entry to this payload type.
  reads :
      (c : Codec) (p : P) (now : ℕ) (aggregate id op : String) (e : LogEntry)
      → ((payload : String) → decode_command c op payload ≡ read coder make payload)
      → ReadsBack coder
      → build coder p now aggregate id op ≡ some e
      → decode_command c e.op e.payload ≡ command (make p)
  reads c p now aggregate id op e here back h =
      let r = read-build p now aggregate id op e back h in
      subst (λ o. decode_command c o e.payload ≡ command (make p)) (sym r.0) (here e.payload ∙ r.1)

decode_answer :
    (c : Codec) (status payload : String)
    → decode_command c
        (if str_eq status status_declined then op_invitation_reject else op_invitation_accept)
        payload
      ≡ read c.invitation answer payload
unfolding decode_command
decode_answer c status payload = elim (Bool-cases (str_eq status status_declined)) [
  | inl declined ↦ rw declined refl
  | inr other ↦ rw other refl
]

decode-built :
    (c : Codec) (now : ℕ) (q : Proposal) (e : LogEntry)
    → IsFaithful c
    → built c now q ≡ some e
    → decode_command c e.op e.payload ≡ command (meant q)
unfolding decode_command build_appt_create_personal build_repair_ensure_user build_appt_create_group
    build_appt_update build_appt_delete build_user_create build_user_update_profile
    build_user_update_password build_group_create build_group_update build_group_delete
    build_group_member_op build_invitation_status build_repair_user_clear_email_if_matches
    build_repair_ensure_group_member build_repair_ensure_participant
    build_repair_ensure_notification
decode-built c now (new_personal owner a) e f h =
    reads c.appt_create create_personal c _ now _ _ _ e (λ s. refl) f.appt_create h
decode-built c now (new_meeting owner a) e f h =
    reads c.appt_create_group create_group_appt c _ now _ _ _ e (λ s. refl) f.appt_create_group h
decode-built c now (appt_details a) e f h =
    reads c.appt_update update_appt c _ now _ _ _ e (λ s. refl) f.appt_update h
decode-built c now (appt_deletion id) e f h =
    reads c.appt_delete delete_appt c _ now _ _ _ e (λ s. refl) f.appt_delete h
decode-built c now (new_user u) e f h =
    reads c.user_create create_user c _ now _ _ _ e (λ s. refl) f.user_create h
decode-built c now (user_profile u) e f h =
    reads c.user_profile update_profile c _ now _ _ _ e (λ s. refl) f.user_profile h
decode-built c now (user_password id hash) e f h =
    reads c.user_password (pair_command update_user_password) c _ now _ _ _ e (λ s. refl)
      f.user_password h
decode-built c now (new_group g) e f h =
    reads c.group_create (λ p. on_group (create p)) c _ now _ _ _ e (λ s. refl) f.group_create h
decode-built c now (group_details id name text) e f h =
    reads c.group_update (λ p. on_group (update p)) c _ now _ _ _ e (λ s. refl) f.group_update h
decode-built c now (group_deletion id) e f h =
    reads c.group_delete (λ p. on_group (remove p)) c _ now _ _ _ e (λ s. refl) f.group_delete h
decode-built c now (member_addition g u rank) e f h =
    reads c.group_member (member_command member_add) c _ now _ _ _ e (λ s. refl) f.group_member h
decode-built c now (member_rank g u rank) e f h =
    reads c.group_member (member_command member_update) c _ now _ _ _ e (λ s. refl) f.group_member h
decode-built c now (member_removal g u rank) e f h =
    reads c.group_member (member_command (λ g u rank. member_remove g u)) c _ now _ _ _ e
      (λ s. refl) f.group_member h
decode-built c now (email_repair id email) e f h =
    reads c.clear_email (pair_command clear_email) c _ now _ _ _ e (λ s. refl) f.clear_email h
decode-built c now (user_repair u) e f h =
    reads c.repair_user ensure_known c _ now _ _ _ e (λ s. refl) f.repair_user h
decode-built c now (member_repair g u rank) e f h =
    reads c.repair_member (member_command ensure_member) c _ now _ _ _ e (λ s. refl) f.repair_member
      h
decode-built c now (participant_repair a u status opt) e f h =
    reads c.repair_participant ensure_invited c _ now _ _ _ e (λ s. refl) f.repair_participant h
decode-built c now (notification_repair u type payload) e f h =
    reads c.repair_notification ensure_told c _ now _ _ _ e (λ s. refl) f.repair_notification h
decode-built c now (invitation_answer a u status) e f h =
    reads c.invitation answer c _ now _ _ _ e (decode_answer c status) f.invitation h

-- The entry that a builder makes does, when the applier comes to it, what the builder's call asks
-- for: the operation that its own case of the switch runs, on the very values given, a user's id left
-- out. What encoding/json writes it reads back.
pub built_entry_applies :
    (env : Env) (c : Codec) (now : ℕ) (q : Proposal) (e : LogEntry) (t : Tables)
    → IsFaithful c
    → built c now q ≡ some e
    → raft_applier env c e t ≡ run env (meant q) t
unfolding raft_applier
built_entry_applies env c now q e t f h = ground (arith, decode-built c now q e f h)
