-- ===== src/Apply.antt =====
-- `applyCommitted`, `isIgnorableApplyError` and `waitForApplied` of consensus.go, with
-- HasAppliedEvent and RecordAppliedEvent of storage.go.
-- The state machine is a parameter: its state `S` and the applier, which returns Go's error. One run
-- of applyCommitted is one function here; the source drops its lock between entries, and two runs at
-- once are not modelled.
pub mod Progress
pub mod Chunks
use agenda_distribuida.Prelude.{
  ℕ, Bool, true, false, not, ◌&&◌, ◌||◌, String, Option, none, some, List, [], ◌∷◌, lookup, insert,
  ltb, leb, ◌==◌, str_eq, if◌then◌else◌,
}
use agenda_distribuida.Messages.{LogEntry}
use agenda_distribuida.Text.{contains, is_blank}
use agenda_distribuida.Ops.{
  op_group_member_remove, op_user_create, op_user_update_profile, op_appt_create_personal,
  op_appt_create_group, op_group_create, op_repair_ensure_participant,
  op_repair_ensure_group_member, op_repair_ensure_notification,
}
use agenda_distribuida.RaftLog.{load_committed}
use agenda_distribuida.Node.{Node, Role, is_leader, Database, set_last_applied}

abbrev pub Applier : Type 0 → Type 0
Applier S = LogEntry → S → Option String × S

-- The operations for which a violated UNIQUE constraint means that the change is there already.
unfoldable pub may_repeat : String → Bool
may_repeat op =
    str_eq op op_user_create
    || str_eq op op_user_update_profile
    || str_eq op op_appt_create_personal
    || str_eq op op_appt_create_group
    || str_eq op op_group_create
    || str_eq op op_repair_ensure_participant
    || str_eq op op_repair_ensure_group_member
    || str_eq op op_repair_ensure_notification

unfoldable pub is_ignorable_apply_error : LogEntry → Option String → Bool
unfolding may_repeat
is_ignorable_apply_error e none = true
is_ignorable_apply_error e (some msg) =
    contains msg "apply conflict"
    || (str_eq e.op op_group_member_remove && contains msg "member not found")
    || (contains msg "UNIQUE constraint failed" && may_repeat e.op)

-- HasAppliedEvent: the error, or whether the event is recorded.
unfoldable pub has_applied_event : Database → String → Node → Option String × Bool
has_applied_event db id n =
    if is_blank id then (some "empty event id", false) else elim (db.applied_error id) [
      | some e ↦ (some e, false)
      | none ↦ elim (lookup id n.applied_events) [ none ↦ (none, false) | some i ↦ (none, true) ]
    ]

-- `INSERT OR IGNORE`: the first record of an event stays.
unfoldable pub record_applied_event : Database → String → ℕ → Node → Option String × Node
record_applied_event db id idx n =
    if is_blank id then (some "empty event id", n) else elim (db.record_error id) [
      | some e ↦ (some e, n)
      | none ↦ elim (lookup id n.applied_events) [
        | none ↦ (none, record n { applied_events = insert id idx n.applied_events })
        | some i ↦ (none, n)
      ]
    ]

-- lastApplied moves to the entry, and an error at or before it is forgotten.
unfoldable pub advance_applied : Database → ℕ → Node → Node
advance_applied db idx n =
    let n' : Node = set_last_applied db idx n in
    elim n.apply_err [
      | none ↦ n'
      | some e ↦
          if leb n.apply_err_index idx
          then record n' { apply_err = none; apply_err_index = 0 }
          else n'
    ]

module _ {S : Type 0} where
  -- An entry whose effect is in the state: record its event and move on.
  unfoldable pub finish_entry : Database → LogEntry → Node → S → Option String × Node × S
  finish_entry db e n s =
      let (err, n') = record_applied_event db e.event_id e.index n in
      elim err [ some msg ↦ (some msg, n', s) | none ↦ (none, advance_applied db e.index n', s) ]

  unfoldable pub run_entry : Applier S → Database → LogEntry → Node → S → Option String × Node × S
  run_entry applier db e n s =
      let (err, s') = applier e s in
      elim err [
        | none ↦ finish_entry db e n s'
        | some msg ↦
            if is_ignorable_apply_error e (some msg)
            then finish_entry db e n s'
            else (some msg, record n { apply_err = some msg; apply_err_index = e.index }, s')
      ]

  -- The body of the loop. An error ends the run.
  unfoldable pub apply_entry : Applier S → Database → LogEntry → Node → S → Option String × Node × S
  apply_entry applier db e n s =
      let (err, applied) = has_applied_event db e.event_id n in
      elim err [
        | some msg ↦ (some msg, n, s)
        | none ↦
            if applied then (none, advance_applied db e.index n, s) else run_entry applier db e n s
      ]

  unfoldable pub apply_rows :
      Applier S → Database → List LogEntry → Node → S → Option String × Node × S
  apply_rows applier db [] n s = (none, n, s)
  apply_rows applier db (e ∷ es) n s =
      let (err, n', s') = apply_entry applier db e n s in
      elim err [ some msg ↦ (some msg, n', s') | none ↦ apply_rows applier db es n' s' ]

  -- `none` in place of the applier is a node without one.
  unfoldable pub apply_committed :
      Option (Applier S) → Database → Node → S → Option String × Node × S
  apply_committed none db n s = (none, n, s)
  apply_committed (some applier) db n s =
      if leb n.commit_index n.last_applied then (none, n, s) else elim db.rows_error [
        | some e ↦ (some e, n, s)
        | none ↦ apply_rows applier db (load_committed n.last_applied n.commit_index n.raft_log) n s
      ]

-- What the loop of waitForApplied reads in one round, and whether the deadline has passed then.
pub record Look : Type 0 where
  pub last_applied : ℕ
  pub role : Role
  pub apply_err : Option String
  pub apply_err_index : ℕ
  pub expired : Bool

unfoldable pub look_error : ℕ → Look → Bool
look_error target l = elim l.apply_err [
  | none ↦ false
  | some e ↦ ltb 0 l.apply_err_index && leb l.apply_err_index target
]

-- One round for each look. The deadline lies 5 s ahead, so some look comes after it: a list of looks
-- that ends without an answer is the beginning of a wait, and has no result yet.
unfoldable pub wait_for_applied : ℕ → List Look → Option (Option String)
unfolding look_error
wait_for_applied target [] = none
wait_for_applied target (l ∷ ls) =
    let rest = wait_for_applied target ls in
    if not (is_leader l.role)
    then some (some "lost leadership while waiting for apply")
    else if look_error target l
    then some (some "apply error while waiting for entry to be applied")
    else if leb target l.last_applied
    then some none
    else if l.expired
    then some (some "timeout waiting for entry to be applied")
    else rest
