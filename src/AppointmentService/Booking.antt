-- ===== src/AppointmentService/Booking.antt =====
-- Two personal appointments of one owner, made by the service one after the other.
use agenda_distribuida.Prelude.{
  ℕ, ◌<◌, ◌≤◌, ◌≡◌, ◌⊎◌, refl, sym, subst, Bool, true, false, not, ◌&&◌, String, none, List, [],
  ◌∷◌, ◌++◌, any, eq_iff, arith, inl, inr,
}
use agenda_distribuida.Groups.{Appointment, Participant, GroupTables}
use agenda_distribuida.Appointments.{
  status_accepted, new_participant, is_participant, is_busy, overlaps, takes_part, has_conflict,
  create_appointment, add_participant, with_appointment_id, with_participant_id,
}
use agenda_distribuida.Text.{is_blank}
use agenda_distribuida.Ids.{Digest}
use agenda_distribuida.Tables.{Tables, Env}
use agenda_distribuida.Service.{Outcome, returned, failed}
use agenda_distribuida.AppointmentService.{
  Site, leading, write_personal, create_personal_appointment,
}

any-append_last {ℓ} :
    {A : Type ℓ} (p : A → Bool) (xs : List A) (y : A) → p y ≡ true → any p (xs ++ (y ∷ [])) ≡ true
unfolding any
any-append_last p [] y h = ground (arith, h)
any-append_last p (x ∷ xs) y h = ground (arith, any-append_last p xs y h)

-- The tables after a personal appointment was written.
abbrev pub Written : Env → String → Appointment → Tables → GroupTables → Type 0
Written env owner a t g =
    (x : Appointment) × (p : Participant) × (g.appointments
      ≡ t.group_tables.appointments ++ (x ∷ []))
    × (g.participants ≡ t.group_tables.participants ++ (p ∷ []))
    × (is_participant x.id owner p ≡ true)
    × (is_busy p ≡ true)
    × (x.start_ts ≡ a.start_ts)
    × (x.end_ts ≡ a.end_ts)
    × (x.deleted ≡ false)

pub owner_takes_part :
    (d : Digest) (aid owner : String)
    → is_participant aid owner
        (with_participant_id d (new_participant aid owner status_accepted false))
      ≡ true
unfolding with_participant_id is_blank
owner_takes_part d aid owner = ground (arith, eq_iff aid aid, eq_iff owner owner)

pub owner_is_busy :
    (d : Digest) (aid owner : String)
    → is_busy (with_participant_id d (new_participant aid owner status_accepted false)) ≡ true
unfolding with_participant_id is_blank
owner_is_busy d aid owner = refl

write_personal-writes :
    (env : Env) (owner : String) (a b : Appointment) (t t' : Tables)
    → write_personal env owner a t ≡ returned b t'
    → Written env owner a t t'.group_tables
unfolding write_personal create_appointment add_participant with_appointment_id
write_personal-writes env owner a b t t' h = (
  record (with_appointment_id env.digest t.users a) { version = 1; deleted = false },
  with_participant_id env.digest
      (new_participant (with_appointment_id env.digest t.users a).id owner status_accepted false),
  ground arith,
  ground arith,
  owner_takes_part env.digest (with_appointment_id env.digest t.users a).id owner,
  owner_is_busy env.digest (with_appointment_id env.digest t.users a).id owner,
  ground arith,
  ground arith,
  refl,
)

pub booked :
    (env : Env) (owner : String) (a : Appointment) (t : Tables) (g : GroupTables) (from until : ℕ)
    → Written env owner a t g
    → a.start_ts < until
    → from < a.end_ts
    → has_conflict owner from until g ≡ true
unfolding has_conflict takes_part
booked env owner a t g from until (x, p, apps, parts, here, busy, start_is, end_is, alive) s e =
    let part =
      subst (λ ps. any (λ q. is_participant x.id owner q && is_busy q) ps ≡ true) (sym parts)
        (any-append_last (λ q. is_participant x.id owner q && is_busy q) t.group_tables.participants
          p (ground (arith, here, busy))) in
    subst
      (λ as'.
        any
          (λ r.
            not r.deleted
            && overlaps from until r
            && any (λ q. is_participant r.id owner q && is_busy q) g.participants)
          as'
        ≡ true)
      (sym apps)
      (any-append_last
        (λ r.
          not r.deleted
          && overlaps from until r
          && any (λ q. is_participant r.id owner q && is_busy q) g.participants)
        t.group_tables.appointments x (ground (arith, part, alive)))

pub refused_if_booked :
    (s : Site) (owner : String) (a : Appointment) (t : Tables)
    → a.start_ts ≤ a.end_ts
    → has_conflict owner a.start_ts a.end_ts t.group_tables ≡ true
    → create_personal_appointment s owner a t ≡ failed "conflict detected" t
unfolding create_personal_appointment
refused_if_booked s owner a t order conflict = ground (arith, conflict)

Outcome-cases :
    {A : Type 0} (o : Outcome A)
    → ((e : String) × (t : Tables) × (o ≡ failed e t))
      ⊎ ((a : A) × (t : Tables) × (o ≡ returned a t))
Outcome-cases (failed e t) = inl (e, t, refl)
Outcome-cases (returned a t) = inr (a, t, refl)

created_directly :
    (s : Site) (owner : String) (a b : Appointment) (t t' : Tables)
    → leading s ≡ none
    → create_personal_appointment s owner a t ≡ returned b t'
    → (c : Appointment) × (t1 : Tables) × (write_personal s.env owner
          (record a { owner_id = owner; status = status_accepted })
          t
        ≡ returned c t1)
      × (t'.group_tables ≡ t1.group_tables)
unfolding create_personal_appointment
created_directly s owner a b t t' direct h =
    let a' : Appointment = record a { owner_id = owner; status = status_accepted } in
    elim (Outcome-cases (write_personal s.env owner a' t)) [
      | inl (e, t1, wrong) ↦ absurd (ground (arith, wrong, direct))
      | inr (c, t1, right) ↦ (c, t1, right, ground (arith, right, direct))
    ]

-- The path without the log.
pub booked_directly :
    (s : Site) (owner : String) (a b made : Appointment) (t t' : Tables)
    → leading s ≡ none
    → create_personal_appointment s owner a t ≡ returned made t'
    → a.start_ts < b.end_ts
    → b.start_ts < a.end_ts
    → b.start_ts ≤ b.end_ts
    → create_personal_appointment s owner b t' ≡ failed "conflict detected" t'
booked_directly s owner a b made t t' direct h before after order =
    let (c, t1, written, same) = created_directly s owner a made t t' direct h in
    let a' : Appointment = record a { owner_id = owner; status = status_accepted } in
    refused_if_booked s owner b t' order (
      subst (λ g. has_conflict owner b.start_ts b.end_ts g ≡ true) (sym same)
        (booked s.env owner a' t t1.group_tables b.start_ts b.end_ts
          (write_personal-writes s.env owner a' c t t1 written) before after))
