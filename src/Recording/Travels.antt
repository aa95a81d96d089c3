-- ===== src/Recording/Travels.antt =====
-- An answer that one node records, reconciled by the leader of another.
use agenda_distribuida.Prelude.{
  ℕ, ◌*◌, ◌/◌, false, ◌≡◌, ◌≢◌, refl, ◌∙◌, ap, Option, none, some, String, [], ◌∷◌, ◌++◌, arith,
  str_eq, eq_iff, Table, lookup,
}
use agenda_distribuida.Text.{is_blank}
use agenda_distribuida.Users.{User, get_user_by_id, get_user_by_username}
use agenda_distribuida.Groups.{Appointment, Participant, get_group_by_id}
use agenda_distribuida.Appointments.{
  get_appointment_by_id, update_participant_status, get_participant_by_appointment_and_user,
  find_appointment_by_signature,
}
use agenda_distribuida.Tables.{Tables, Env}
use agenda_distribuida.Payloads.{Codec, IsFaithful}
use agenda_distribuida.Events.{Event, Journal, append_event}
use agenda_distribuida.ClusterHttp.Listing.{Layout, IsRfc3339}
use agenda_distribuida.Handlers.Paths.{Writes, own_applier}
use agenda_distribuida.Reconcilers.{repair}
use agenda_distribuida.Reconcilers.Appointments.{local_group, parsed_seconds}
use agenda_distribuida.Reconcilers.Invitations.{
  InvitationPayload, meeting_group, is_empty, local_appointment, repair_of_answer,
}
use agenda_distribuida.Reconcilers.Replayed.{replayed_answer_wins}
use agenda_distribuida.Recording.Decoded.{
  invitation_payload_in, text_in, pointer_in, decode_invitation,
}
use agenda_distribuida.Recording.{
  Format, Value, username_of, group_of, moment, AnswerFields, answer_fields, answer_members,
  answer_payload, answer_event, record_status,
}

-- The fields of an answer of user `u` to the meeting `a` of `o`.
abbrev pub fields_of : Layout → User → Appointment → User → Tables → AnswerFields
fields_of l u a o t = record {
  username = u.username;
  owner_username = o.username;
  group_id = a.group_id;
  group = group_of a.group_id t.group_tables;
  title = a.title;
  start = moment l a.start_ts;
  end = moment l a.end_ts;
}

-- What the node that records the answer knows.
pub record IsMeeting (aid uid : String) (t : Tables) (u : User) (a : Appointment) (o : User)
    : Type 0 where
  pub user : get_user_by_id uid t.users ≡ some u
  pub appointment : get_appointment_by_id aid t.group_tables ≡ some a
  pub owner : get_user_by_id a.owner_id t.users ≡ some o
  pub user_name : is_blank u.username ≡ false
  pub owner_name : is_blank o.username ≡ false
  pub title : a.title ≢ ""

-- What the other node knows of it, under ids of its own.
pub record IsKnown (p : InvitationPayload) (a : Appointment) (t : Tables) (v o : User)
    (group : Option String) (aid : String) (x : Participant) : Type 0 where
  pub user : get_user_by_username p.username t.users ≡ some v
  pub owner : get_user_by_username p.appt_owner_username t.users ≡ some o
  pub group_there : local_group is_empty (meeting_group p) t ≡ some group
  pub found :
      find_appointment_by_signature o.id group a.start_ts a.end_ts a.title t.group_tables ≡ aid
  pub is_id : aid ≢ ""
  pub participant : get_participant_by_appointment_and_user aid v.id t.group_tables ≡ some x

recorded_fields :
    (l : Layout) (aid uid : String) (t : Tables) (u : User) (a : Appointment) (o : User)
    → IsMeeting aid uid t u a o
    → answer_fields l aid uid t ≡ fields_of l u a o t
unfolding answer_fields username_of
recorded_fields l aid uid t u a o m = ground (arith, m.user, m.appointment, m.owner)

whole : (n : ℕ) → n * 1000000000 / 1000000000 * 1000000000 / 1000000000 ≡ n
whole n = omega arith

read_moment : (l : Layout) → IsRfc3339 l → (n : ℕ) → parsed_seconds l (moment l n) ≡ some n
read_moment l r n =
    ap (λ t. elim t [ none ↦ none | some s ↦ some (s / 1000000000) ])
      (r.reads_back (n * 1000000000))
    ∙ ap (λ k. some k) (whole n)

module _ (l : Layout) (r : IsRfc3339 l) (aid uid status : String) (t other : Tables) (u : User)
    (a : Appointment) (o v o' : User) (group : Option String) (aid' : String) (x : Participant)
    (m : IsMeeting aid uid t u a o) where
  found_there :
      (let p = invitation_payload_in (answer_members aid uid status (fields_of l u a o t)) in
        IsKnown p a other v o' group aid' x → local_appointment l p other ≡ some aid')
  unfolding local_appointment invitation_payload_in text_in pointer_in lookup answer_members
  found_there k = ground (
    arith,
    m.owner_name,
    m.title,
    k.owner,
    k.group_there,
    k.found,
    k.is_id,
    read_moment l r a.start_ts,
    read_moment l r a.end_ts,
    r.is_text (a.start_ts * 1000000000),
    r.is_text (a.end_ts * 1000000000),
    eq_iff a.title "",
    eq_iff aid' "",
    eq_iff (moment l a.start_ts) "",
    eq_iff (moment l a.end_ts) "",
  )

not_empty : (s : String) → s ≢ "" → str_eq s "" ≡ false
not_empty s h = ground (arith, h, eq_iff s "")

is_object :
    (f : Format) (aid uid status : String) (x : AnswerFields)
    → str_eq (answer_payload f aid uid status x) "" ≡ false
is_object f aid uid status x = not_empty (answer_payload f aid uid status x) (λ h. cc h)

-- The event that is recorded.
abbrev pub recorded_event : Format → ℕ → String → String → String → Tables → Journal Event → Event
recorded_event f now aid uid status t j =
    (append_event now
      (answer_event f aid uid status
        (record t { group_tables = update_participant_status aid uid status t.group_tables }))
      j).0

-- UpdateParticipantStatus of a user's answer to a meeting appends an event, as the last one, after
-- whose reconciliation by the leader of another node the user of that name has that answer there, to
-- the meeting of that title, owner, group and times; the ids of the two nodes may differ. The
-- recorder has the user, the meeting and its owner, and the other node the same by their names, its
-- log is applied at once, and texts and times read back as they were written.
pub answer_travels :
    (env : Env) (f : Format) (unmarshal : String → Option (Table Value)) (codec : Codec)
    (now later : ℕ) (aid uid status : String) (t other : Tables) (j : Journal Event) (u : User)
    (a : Appointment) (o v o' : User) (group : Option String) (aid' : String) (x : Participant)
    → IsMeeting aid uid t u a o
    → IsRfc3339 f.layout
    → (let fields = fields_of f.layout u a o t in
        unmarshal (answer_payload f aid uid status fields)
        ≡ some (answer_members aid uid status fields))
    → IsKnown
        (invitation_payload_in (answer_members aid uid status (fields_of f.layout u a o t)))
        a
        other
        v
        o'
        group
        aid'
        x
    → IsFaithful codec
    → Writes codec.invitation (record { appointment_id = aid'; user_id = v.id; status = status })
    → let e = recorded_event f now aid uid status t j in
      let own = own_applier env codec 0 in
      let t' =
        repair
          (λ e. e.created_at)
          (repair_of_answer f.layout (decode_invitation unmarshal))
          codec
          own
          later
          e
          other in
      ((record_status f now aid uid status t j).1.rows ≡ j.rows ++ (e ∷ []))
      × ((y : Participant) × (get_participant_by_appointment_and_user aid' v.id t'.group_tables
            ≡ some y)
          × (y.status ≡ status))
unfolding record_status append_event get_appointment_by_id update_participant_status group_of
    get_group_by_id invitation_payload_in text_in pointer_in lookup answer_members
answer_travels env f unmarshal codec now later aid uid status t other j u a o v o' group aid' x m r
      reads k faithful total =
    let t1 : Tables = record t {
      group_tables = update_participant_status aid uid status t.group_tables;
    } in
    let fields = fields_of f.layout u a o t in
    let same : answer_fields f.layout aid uid t1 ≡ fields =
      recorded_fields f.layout aid uid t1 u a o (record {
        user = m.user;
        appointment = m.appointment;
        owner = m.owner;
        user_name = m.user_name;
        owner_name = m.owner_name;
        title = m.title;
      }) in
    (
      refl,
      replayed_answer_wins env f.layout (decode_invitation unmarshal) codec later
          (recorded_event f now aid uid status t j) other
          (invitation_payload_in (answer_members aid uid status fields)) v aid' x
          (record {
            has_payload = is_object f aid uid status (answer_fields f.layout aid uid t1);
            decoded =
                ap (λ y. decode_invitation unmarshal (answer_payload f aid uid status y)) same
                ∙ cc reads;
            has_name = m.user_name;
            user = k.user;
            appointment = found_there f.layout r aid uid status t other u a o v o' group aid' x m k;
            participant = k.participant;
          })
          faithful total,
    )
