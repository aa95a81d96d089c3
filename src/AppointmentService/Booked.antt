-- ===== src/AppointmentService/Booked.antt =====
-- Two personal appointments of one owner, made by the service on a leader one after the other.
use agenda_distribuida.Prelude.{
  ℕ, ◌<◌, ◌≤◌, ◌≡◌, ◌⊎◌, refl, sym, subst, ◌∙◌, ap, none, some, Option-cases, inl, inr, String,
  false, true, [], ◌∷◌, ◌++◌, any, eq_iff, arith,
}
use agenda_distribuida.Messages.{LogEntry}
use agenda_distribuida.Apply.{is_ignorable_apply_error}
use agenda_distribuida.Groups.{Appointment, GroupTables}
use agenda_distribuida.Appointments.{
  status_accepted, new_participant, participant_clash, create_appointment, has_conflict,
  find_appointment_by_signature, add_participant, with_appointment_id, with_participant_id,
  get_participant_by_appointment_and_user,
}
use agenda_distribuida.Tables.{Tables, Env}
use agenda_distribuida.RaftAppointments.{
  ApptCreate, personal, insert_personal, apply_create_personal, add_owner, unless_unique,
}
use agenda_distribuida.RaftAppointments.Deleted.{Missing, IsFree, new_row}
use agenda_distribuida.RaftApplier.{run, create_personal}
use agenda_distribuida.Payloads.{Codec, IsFaithful}
use agenda_distribuida.DomainPropose.RoundTrip.{new_personal, built, built_entry_applies}
use agenda_distribuida.Handlers.Paths.{own_applier, leader_site, settled}
use agenda_distribuida.Service.{returned, failed}
use agenda_distribuida.AppointmentService.{
  Site, leading, create_personal_appointment, propose_personal,
}
use agenda_distribuida.AppointmentService.Booking.{
  Written, owner_takes_part, owner_is_busy, booked, refused_if_booked, booked_directly,
}

-- The payload of the entry that the service proposes.
abbrev pub proposed : String → Appointment → ApptCreate
proposed owner a = record {
  title = a.title;
  description = a.description;
  owner_id = owner;
  start_ts = a.start_ts;
  end_ts = a.end_ts;
  privacy = a.privacy;
}

-- No participant stands in the new one's way.
abbrev pub NoParticipant : Env → String → Appointment → Tables → Type 0
NoParticipant env owner a t =
    let part =
      with_participant_id env.digest
        (new_participant (new_row env (proposed owner a) t).id owner status_accepted false) in
    (any (participant_clash part) t.group_tables.participants ≡ false)
    × (get_participant_by_appointment_and_user (new_row env (proposed owner a) t).id owner
          t.group_tables
        ≡ none)

added :
    (env : Env) (aid owner : String) (g : GroupTables)
    → get_participant_by_appointment_and_user aid owner g ≡ none
    → any
        (participant_clash
          (with_participant_id env.digest (new_participant aid owner status_accepted false)))
        g.participants
      ≡ false
    → add_owner env aid owner g ≡ (
      none,
      record g {
        participants =
            g.participants
            ++ (with_participant_id env.digest (new_participant aid owner status_accepted false)
                ∷ []);
      },
    )
unfolding add_owner add_participant unless_unique
added env aid owner g unknown apart = ground (arith, unknown, apart)

module _ (env : Env) (owner : String) (a : Appointment) (t : Tables)
    (missing : Missing (proposed owner a) t) (free : IsFree env (proposed owner a) t)
    (alone : NoParticipant env owner a t) where
  abbrev written : GroupTables
  written = record t.group_tables {
    appointments = t.group_tables.appointments ++ (new_row env (proposed owner a) t ∷ []);
    participants =
        t.group_tables.participants
        ++ (with_participant_id env.digest
              (new_participant (new_row env (proposed owner a) t).id owner status_accepted false)
            ∷ []);
  }

  abbrev inserted : GroupTables
  inserted = record t.group_tables {
    appointments = t.group_tables.appointments ++ (new_row env (proposed owner a) t ∷ []);
  }

  created :
      create_appointment env.digest t.users (personal (proposed owner a)) t.group_tables
      ≡ (none, with_appointment_id env.digest t.users (personal (proposed owner a)), inserted)
  unfolding create_appointment
  created = ground (arith, free)

  owner_added : add_owner env (new_row env (proposed owner a) t).id owner inserted ≡ (none, written)
  unfolding get_participant_by_appointment_and_user
  owner_added = added env (new_row env (proposed owner a) t).id owner inserted alone.1 alone.0

  inserted_personal :
      insert_personal env (proposed owner a) t ≡ (none, record t { group_tables = written })
  unfolding insert_personal
  inserted_personal = ground (arith, created, owner_added)

  run_writes :
      run env (create_personal (proposed owner a)) t ≡ (none, record t { group_tables = written })
  unfolding run apply_create_personal
  run_writes =
      let existing : String =
        find_appointment_by_signature owner none a.start_ts a.end_ts a.title t.group_tables in
      ground (arith, missing, inserted_personal, eq_iff existing "")

  anew : Written env owner a t written
  unfolding with_appointment_id
  anew = (
    new_row env (proposed owner a) t,
    with_participant_id env.digest
        (new_participant (new_row env (proposed owner a) t).id owner status_accepted false),
    refl,
    refl,
    owner_takes_part env.digest (new_row env (proposed owner a) t).id owner,
    owner_is_busy env.digest (new_row env (proposed owner a) t).id owner,
    ground arith,
    ground arith,
    refl,
  )

  module _ (codec : Codec) (now : ℕ) (f : IsFaithful codec) where
    abbrev asked : Appointment
    asked = record a { owner_id = owner; status = status_accepted }

    led_entry :
        (e : LogEntry)
        → built codec now (new_personal owner asked) ≡ some e
        → (leader_site env codec now).consensus ≡ some (own_applier env codec now)
        → (own_applier env codec now).propose e t ≡ (none, record t { group_tables = written })
    unfolding is_ignorable_apply_error
    led_entry e is led =
        let applied = built_entry_applies env codec now (new_personal owner asked) e t f is in
        ap (settled e) (applied ∙ run_writes)

    led_tables :
        (b : Appointment) (t' : Tables)
        → create_personal_appointment (leader_site env codec now) owner a t ≡ returned b t'
        → t'.group_tables ≡ written
    unfolding create_personal_appointment propose_personal
    led_tables b t' h = elim (Option-cases (built codec now (new_personal owner asked))) [
      | inl missing_entry ↦ absurd (ground (arith, h, missing_entry))
      | inr (e, is) ↦ ground (arith, h, is, led_entry e is refl)
    ]

-- On a leader, whose log is applied at once, after a personal appointment was written by the service,
-- every personal appointment of the same owner that overlaps it is refused, and changes nothing, as
-- on a node that writes straight to its tables. On the leader no appointment had the first one's
-- owner, times and title, and its derived id was free, also among participants; payloads read back.
pub booked_once :
    (s : Site) (owner : String) (a b made : Appointment) (t t' : Tables)
    → ((leading s ≡ none)
        ⊎ ((codec : Codec) × (now : ℕ) × (s ≡ leader_site s.env codec now)
            × IsFaithful codec
            × Missing (proposed owner a) t
            × IsFree s.env (proposed owner a) t
            × NoParticipant s.env owner a t))
    → create_personal_appointment s owner a t ≡ returned made t'
    → a.start_ts < b.end_ts
    → b.start_ts < a.end_ts
    → b.start_ts ≤ b.end_ts
    → create_personal_appointment s owner b t' ≡ failed "conflict detected" t'
booked_once s owner a b made t t' (inl direct) h before after order =
    booked_directly s owner a b made t t' direct h before after order
booked_once s owner a b made t t' (inr (codec, now, is, f, missing, free, alone)) h before after
      order =
    let first = subst (λ r. create_personal_appointment r owner a t ≡ returned made t') is h in
    let same = led_tables s.env owner a t missing free alone codec now f made t' first in
    refused_if_booked s owner b t' order (
      subst (λ g. has_conflict owner b.start_ts b.end_ts g ≡ true) (sym same)
        (booked s.env owner a t (written s.env owner a t missing free alone) b.start_ts b.end_ts
          (anew s.env owner a t missing free alone) before after))
