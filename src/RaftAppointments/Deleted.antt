-- ===== src/RaftAppointments/Deleted.antt =====
-- A personal appointment that is created, deleted and created again.
use agenda_distribuida.Prelude.{
  ◌+◌, ◌≡◌, refl, subst, sym, ◌∙◌, ap, Bool, true, false, not, ◌&&◌, String, none, some, List, [],
  ◌∷◌, ◌++◌, map, find, any, any-append, arith, str_eq, eq_iff, if◌then◌else◌,
}
use agenda_distribuida.Messages.{LogEntry}
use agenda_distribuida.Ops.{op_appt_create_personal}
use agenda_distribuida.Apply.{is_ignorable_apply_error, may_repeat}
use agenda_distribuida.Users.{unique_error}
use agenda_distribuida.Users.Laws.{unique_recognised}
use agenda_distribuida.Appointments.{
  find_appointment_by_signature, with_appointment_id, create_appointment, last_match,
  get_appointment_by_id, delete_appointment, add_participant, has_signature,
}
use agenda_distribuida.Groups.{Appointment, GroupTables}
use agenda_distribuida.Tables.{Tables, Env}
use agenda_distribuida.RaftAppointments.{
  ApptCreate, personal, insert_personal, apply_create_personal, add_owner,
}
use agenda_distribuida.RaftApplier.{run, create_personal, delete_appt}

creation_ignored :
    (e : LogEntry)
    → e.op ≡ op_appt_create_personal
    → is_ignorable_apply_error e (some unique_error) ≡ true
unfolding is_ignorable_apply_error may_repeat
creation_ignored e op = ground (arith, unique_recognised, eq_iff e.op op_appt_create_personal)

creation_refused :
    (env : Env) (p : ApptCreate) (t : Tables)
    → find_appointment_by_signature p.owner_id none p.start_ts p.end_ts p.title t.group_tables ≡ ""
    → any
        (λ r. str_eq r.id (with_appointment_id env.digest t.users (personal p)).id)
        t.group_tables.appointments
      ≡ true
    → apply_create_personal env p t ≡ (some unique_error, t)
unfolding apply_create_personal insert_personal create_appointment
creation_refused env p t missing used =
    let existing : String =
      find_appointment_by_signature p.owner_id none p.start_ts p.end_ts p.title t.group_tables in
    ground (arith, missing, used, eq_iff existing "")

unchanged :
    (id : String) (rows : List Appointment)
    → any (λ r. str_eq r.id id) rows ≡ false
    → map
        (λ r. if str_eq r.id id then (record r { deleted = true; version = r.version + 1 }) else r)
        rows
      ≡ rows
unfolding any
unchanged id [] free = refl
unchanged id (r ∷ rows) free = ground (arith, unchanged id rows, free)

last_match_snoc :
    (p : Appointment → Bool) (rows : List Appointment) (x : Appointment)
    → p x ≡ false
    → last_match p (rows ++ (x ∷ [])) ≡ last_match p rows
unfolding last_match
last_match_snoc p [] x other = ground (arith, other)
last_match_snoc p (r ∷ rows) x other = ground (arith, last_match_snoc p rows x other)

map_snoc :
    (f : Appointment → Appointment) (rows : List Appointment) (x : Appointment)
    → map f (rows ++ (x ∷ [])) ≡ map f rows ++ (f x ∷ [])
map_snoc f [] x = refl
map_snoc f (r ∷ rows) x = ap (λ rs. f r ∷ rs) (map_snoc f rows x)

found_last :
    (p : Appointment → Bool) (rows : List Appointment) (x : Appointment)
    → any p rows ≡ false
    → p x ≡ true
    → find p (rows ++ (x ∷ [])) ≡ some x
unfolding find any
found_last p [] x new is = ground (arith, is)
found_last p (r ∷ rows) x new is = ground (arith, found_last p rows x, new, is)

none_alive :
    (id : String) (rows : List Appointment)
    → any (λ r. str_eq r.id id) rows ≡ false
    → any (λ r. str_eq r.id id && not r.deleted) rows ≡ false
unfolding any
none_alive id [] free = refl
none_alive id (r ∷ rows) free = ground (arith, none_alive id rows, free)

not_found :
    (id : String) (rows : List Appointment) (x : Appointment)
    → any (λ r. str_eq r.id id) rows ≡ false
    → x.deleted ≡ true
    → find (λ r. str_eq r.id id && not r.deleted) (rows ++ (x ∷ [])) ≡ none
unfolding find any
not_found id [] x free dead = ground (arith, dead)
not_found id (r ∷ rows) x free dead = ground (arith, not_found id rows x, free, dead)

-- The row that a first creation inserts.
abbrev pub new_row : Env → ApptCreate → Tables → Appointment
new_row env p t = record (with_appointment_id env.digest t.users (personal p)) {
  version = 1;
  deleted = false;
}

abbrev deleted_row : Appointment → Appointment
deleted_row r = record r { deleted = true; version = r.version + 1 }

appointments-add_owner :
    (env : Env) (aid owner : String) (t : GroupTables)
    → (add_owner env aid owner t).1.appointments ≡ t.appointments
unfolding add_owner add_participant
appointments-add_owner env aid owner t = ground arith

abbrev pub Missing : ApptCreate → Tables → Type 0
Missing p t =
    find_appointment_by_signature p.owner_id none p.start_ts p.end_ts p.title t.group_tables ≡ ""

abbrev pub IsFree : Env → ApptCreate → Tables → Type 0
IsFree env p t = any (λ r. str_eq r.id (new_row env p t).id) t.group_tables.appointments ≡ false

module _ (env : Env) (p : ApptCreate) (t : Tables) (missing : Missing p t)
    (free : IsFree env p t) where
  abbrev pub made : Tables
  made = (run env (create_personal p) t).1

  abbrev pub gone : Tables
  gone = (run env (delete_appt (new_row env p t).id) made).1

  made_rows :
      (made.group_tables.appointments ≡ t.group_tables.appointments ++ (new_row env p t ∷ []))
      × (made.users ≡ t.users)
  unfolding run apply_create_personal insert_personal create_appointment
  made_rows =
      let existing : String =
        find_appointment_by_signature p.owner_id none p.start_ts p.end_ts p.title t.group_tables in
      ground (
        arith,
        missing,
        free,
        eq_iff existing "",
        appointments-add_owner env (new_row env p t).id p.owner_id (record t.group_tables {
          appointments = t.group_tables.appointments ++ (new_row env p t ∷ []);
        }),
      )

  gone_rows :
      gone.group_tables.appointments
      ≡ t.group_tables.appointments ++ (deleted_row (new_row env p t) ∷ [])
  unfolding run delete_appointment
  gone_rows =
      let mark : Appointment → Appointment =
        λ r. if str_eq r.id (new_row env p t).id then deleted_row r else r in
      ap (map mark) made_rows.0
      ∙ map_snoc mark t.group_tables.appointments (new_row env p t)
      ∙ ground (
        arith,
        unchanged (new_row env p t).id t.group_tables.appointments free,
        eq_iff (new_row env p t).id (new_row env p t).id,
      )

  gone_users : gone.users ≡ t.users
  unfolding run
  gone_users = made_rows.1

  unseen_again : Missing p gone
  unfolding find_appointment_by_signature
  unseen_again =
      let signed = has_signature p.owner_id none p.start_ts p.end_ts p.title in
      let unsigned : signed (deleted_row (new_row env p t)) ≡ false = ground arith in
      ground (
        arith,
        missing,
        gone_rows,
        last_match_snoc signed t.group_tables.appointments (deleted_row (new_row env p t)) unsigned,
      )

  id_taken : any (λ r. str_eq r.id (new_row env p gone).id) gone.group_tables.appointments ≡ true
  id_taken =
      let same = ap (λ us. (with_appointment_id env.digest us (personal p)).id) gone_users in
      let taken =
        any-append (λ r. str_eq r.id (new_row env p t).id) t.group_tables.appointments
          (deleted_row (new_row env p t))
          (ground (arith, eq_iff (new_row env p t).id (new_row env p t).id)) in
      rw (gone_rows, same) taken

  was_there : get_appointment_by_id (new_row env p t).id made.group_tables ≡ some (new_row env p t)
  unfolding get_appointment_by_id
  was_there = rw made_rows.0 (
      found_last (λ a. str_eq a.id (new_row env p t).id && not a.deleted)
        t.group_tables.appointments (new_row env p t)
        (none_alive (new_row env p t).id t.group_tables.appointments free)
        (ground (arith, eq_iff (new_row env p t).id (new_row env p t).id)))

  not_there : get_appointment_by_id (new_row env p t).id gone.group_tables ≡ none
  unfolding get_appointment_by_id
  not_there = rw gone_rows (
      not_found (new_row env p t).id t.group_tables.appointments (deleted_row (new_row env p t))
        free refl)

-- A personal appointment that the log creates, of an owner, times and title that no appointment has
-- and under a derived id that is free, and then deletes, cannot be created again: the appointment is
-- there after the first entry and gone after the deletion; the same creation then changes no table,
-- and its error is one that applyCommitted ignores.
pub deleted_appointment_is_lost :
    (env : Env) (p : ApptCreate) (t : Tables) (e : LogEntry)
    → e.op ≡ op_appt_create_personal
    → Missing p t
    → IsFree env p t
    → let id = (new_row env p t).id in
      let made = (run env (create_personal p) t).1 in
      let gone = (run env (delete_appt id) made).1 in
      (get_appointment_by_id id made.group_tables ≡ some (new_row env p t))
      × (get_appointment_by_id id gone.group_tables ≡ none)
      × ((run env (create_personal p) gone).1 ≡ gone)
      × (is_ignorable_apply_error e (run env (create_personal p) gone).0 ≡ true)
unfolding run
deleted_appointment_is_lost env p t e op missing free =
    let refused =
      creation_refused env p (gone env p t missing free) (unseen_again env p t missing free)
        (id_taken env p t missing free) in
    (
      was_there env p t missing free,
      not_there env p t missing free,
      ap (λ r. r.1) refused,
      subst (λ r. is_ignorable_apply_error e r.0 ≡ true) (sym refused) (creation_ignored e op),
    )
