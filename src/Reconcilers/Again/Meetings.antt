-- ===== src/Reconcilers/Again/Meetings.antt =====
-- Personal appointments that are created again.
use agenda_distribuida.Prelude.{
  Bool, true, false, ◌≡◌, refl, sym, ◌∙◌, ap, ◌⊎◌, inl, inr, none, some, String, List, arith,
  Option-cases, Bool-cases, any-append, find-append, eq_iff, str_eq, ◌++◌, [], ◌∷◌, any,
}
use agenda_distribuida.Users.{UserRow, unique_error}
use agenda_distribuida.Groups.{Appointment, GroupTables}
use agenda_distribuida.Appointments.{
  is_participant, has_signature, last_match, find_appointment_by_signature, with_appointment_id,
  create_appointment, add_participant, with_participant_id, new_participant, status_accepted,
  get_participant_by_appointment_and_user,
}
use agenda_distribuida.RaftAppointments.{
  ApptCreate, personal, add_owner, insert_personal, apply_create_personal,
}
use agenda_distribuida.Tables.{Tables, Env}

last_match-append :
    (p : Appointment → Bool) (xs : List Appointment) (y : Appointment)
    → p y ≡ true
    → last_match p (xs ++ (y ∷ [])) ≡ some y
unfolding last_match
last_match-append p [] y h = ground (arith, h)
last_match-append p (x ∷ xs) y h = ground (arith, last_match-append p xs y h)

owner_added_again :
    (env : Env) (aid owner : String) (t : GroupTables)
    → (add_owner env aid owner (add_owner env aid owner t).1).1 ≡ (add_owner env aid owner t).1
unfolding add_owner get_participant_by_appointment_and_user add_participant with_participant_id
owner_added_again env aid owner t =
    let new = with_participant_id env.digest (new_participant aid owner status_accepted false) in
    let found = find-append (is_participant aid owner) t.participants new in
    ground (arith, found, eq_iff aid aid, eq_iff owner owner)

pub appointments_after_owner :
    (env : Env) (aid owner : String) (t : GroupTables)
    → (add_owner env aid owner t).1.appointments ≡ t.appointments
unfolding add_owner add_participant
appointments_after_owner env aid owner t = ground arith

-- The row that an insertion leaves.
abbrev pub row_made : Env → Tables → Appointment → Appointment
row_made env t a = record (with_appointment_id env.digest t.users a) {
  version = 1;
  deleted = false;
}

signed :
    (env : Env) (t : Tables) (a : Appointment)
    → has_signature a.owner_id a.group_id a.start_ts a.end_ts a.title (row_made env t a) ≡ true
unfolding with_appointment_id
signed env t a = elim (Option-cases a.group_id) [
  | inl alone ↦ ground (arith, alone, eq_iff a.owner_id a.owner_id, eq_iff a.title a.title)
  | inr (g, of) ↦
      ground (arith, of, eq_iff a.owner_id a.owner_id, eq_iff a.title a.title, eq_iff g g)
]

pub found_after :
    (env : Env) (t : Tables) (a : Appointment) (t' : GroupTables)
    → t'.appointments ≡ t.group_tables.appointments ++ (row_made env t a ∷ [])
    → find_appointment_by_signature a.owner_id a.group_id a.start_ts a.end_ts a.title t'
      ≡ (with_appointment_id env.digest t.users a).id
unfolding find_appointment_by_signature
found_after env t a t' grown = ground (
  arith,
  grown,
  last_match-append (has_signature a.owner_id a.group_id a.start_ts a.end_ts a.title)
      t.group_tables.appointments (row_made env t a) (signed env t a),
)

pub clash_after :
    (env : Env) (t : Tables) (a : Appointment) (users : List UserRow) (t' : GroupTables)
    → users ≡ t.users
    → t'.appointments ≡ t.group_tables.appointments ++ (row_made env t a ∷ [])
    → create_appointment env.digest users a t'
      ≡ (some unique_error, with_appointment_id env.digest t.users a, t')
unfolding create_appointment
clash_after env t a users t' same grown =
    let new : String = (with_appointment_id env.digest t.users a).id in
    ground (
      arith,
      same,
      grown,
      any-append (λ r. str_eq r.id new) t.group_tables.appointments (row_made env t a)
          (ground (arith, eq_iff new new)),
    )

abbrev personal_here : ApptCreate → GroupTables → String
personal_here p t = find_appointment_by_signature p.owner_id none p.start_ts p.end_ts p.title t

personal_known :
    (env : Env) (p : ApptCreate) (t : Tables)
    → str_eq (personal_here p t.group_tables) "" ≡ false
    → (apply_create_personal env p t).1 ≡ record t {
      group_tables = (add_owner env (personal_here p t.group_tables) p.owner_id t.group_tables).1;
    }
unfolding apply_create_personal
personal_known env p t known = ground (arith, known)

here_after_owner :
    (env : Env) (p : ApptCreate) (aid owner : String) (t : GroupTables)
    → personal_here p (add_owner env aid owner t).1 ≡ personal_here p t
unfolding find_appointment_by_signature
here_after_owner env p aid owner t = ground (arith, appointments_after_owner env aid owner t)

-- Where the appointment is known, only the owner's part may be new.
known_personal_again :
    (env : Env) (p : ApptCreate) (t : Tables)
    → str_eq (personal_here p t.group_tables) "" ≡ false
    → (apply_create_personal env p (apply_create_personal env p t).1).1
      ≡ (apply_create_personal env p t).1
known_personal_again env p t known =
    let aid = personal_here p t.group_tables in
    let t1 : Tables = record t { group_tables = (add_owner env aid p.owner_id t.group_tables).1 } in
    let once = personal_known env p t known in
    let here = here_after_owner env p aid p.owner_id t.group_tables in
    ap (λ x. (apply_create_personal env p x).1) once
    ∙ personal_known env p t1 (ap (λ x. str_eq x "") here ∙ known)
    ∙ ap (λ x. record t1 { group_tables = (add_owner env x p.owner_id t1.group_tables).1 }) here
    ∙ ap (λ g. record t { group_tables = g }) (owner_added_again env aid p.owner_id t.group_tables)
    ∙ sym once

personal_refused :
    (env : Env) (p : ApptCreate) (t : Tables) (a : Appointment) (g : GroupTables)
    → str_eq (personal_here p t.group_tables) "" ≡ true
    → create_appointment env.digest t.users (personal p) t.group_tables ≡ (some unique_error, a, g)
    → (apply_create_personal env p t).1 ≡ t
unfolding apply_create_personal insert_personal
personal_refused env p t a g missing clash = ground (arith, missing, clash)

personal_made :
    (env : Env) (p : ApptCreate) (t : Tables) (a : Appointment) (g : GroupTables)
    → str_eq (personal_here p t.group_tables) "" ≡ true
    → create_appointment env.digest t.users (personal p) t.group_tables ≡ (none, a, g)
    → (apply_create_personal env p t).1
      ≡ record t { group_tables = (add_owner env a.id p.owner_id g).1 }
unfolding apply_create_personal insert_personal
personal_made env p t a g missing made = ground (arith, missing, made)

-- An insertion either clashes or adds the row.
pub inserted :
    (env : Env) (t : Tables) (a : Appointment)
    → (create_appointment env.digest t.users a t.group_tables
        ≡ (some unique_error, with_appointment_id env.digest t.users a, t.group_tables))
      ⊎ (create_appointment env.digest t.users a t.group_tables ≡ (
        none,
        with_appointment_id env.digest t.users a,
        record t.group_tables {
          appointments = t.group_tables.appointments ++ (row_made env t a ∷ []);
        },
      ))
unfolding create_appointment
inserted env t a =
    elim (Bool-cases (
      any (λ r. str_eq r.id (with_appointment_id env.digest t.users a).id)
        t.group_tables.appointments)) [
          | inl used ↦ inl (ground (arith, used))
          | inr free ↦ inr (ground (arith, free))
        ]

-- Once made, the appointment is found under its id, which is "" only if the derived id is.
made_personal_again :
    (env : Env) (p : ApptCreate) (t : Tables) (g : GroupTables)
    → g.appointments ≡ t.group_tables.appointments ++ (row_made env t (personal p) ∷ [])
    → let aid = (with_appointment_id env.digest t.users (personal p)).id in
      let t1 : Tables = record t { group_tables = (add_owner env aid p.owner_id g).1 } in
      (apply_create_personal env p t1).1 ≡ t1
made_personal_again env p t g grown =
    let a = personal p in
    let aid = (with_appointment_id env.digest t.users a).id in
    let g1 = (add_owner env aid p.owner_id g).1 in
    let t1 : Tables = record t { group_tables = g1 } in
    let grown1 = appointments_after_owner env aid p.owner_id g ∙ grown in
    let here = found_after env t a g1 grown1 in
    elim (Bool-cases (str_eq aid "")) [
      | inl blank ↦
          personal_refused env p t1 _ _ (ap (λ x. str_eq x "") here ∙ blank)
            (clash_after env t a t.users g1 refl grown1)
      | inr named ↦
          personal_known env p t1 (ap (λ x. str_eq x "") here ∙ named)
          ∙ ap (λ x. record t { group_tables = (add_owner env x p.owner_id g1).1 }) here
          ∙ ap (λ x. record t { group_tables = x }) (owner_added_again env aid p.owner_id g)
    ]

-- The entry that creates a personal appointment, applied again, changes nothing more.
pub personal_again :
    (env : Env) (p : ApptCreate) (t : Tables)
    → (apply_create_personal env p (apply_create_personal env p t).1).1
      ≡ (apply_create_personal env p t).1
personal_again env p t = elim (Bool-cases (str_eq (personal_here p t.group_tables) "")) [
  | inr known ↦ known_personal_again env p t known
  | inl missing ↦ elim (inserted env t (personal p)) [
    | inl clash ↦
        ap (λ x. (apply_create_personal env p x).1) (personal_refused env p t _ _ missing clash)
    | inr made ↦
        let once = personal_made env p t _ _ missing made in
        ap (λ x. (apply_create_personal env p x).1) once
        ∙ made_personal_again env p t _ refl
        ∙ sym once
  ]
]
