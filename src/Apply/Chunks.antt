-- ===== src/Apply/Chunks.antt =====
-- Applying what is committed at once and in chunks.
use agenda_distribuida.Prelude.{
  ℕ, ◌≤◌, ◌≡◌, ◌≢◌, refl, ap, sym, subst, ◌∙◌, true, false, String, Option, none, some, List, [],
  ◌∷◌, ◌++◌, All, lookup, insert, lookup-insert, arith, str_eq, eq_iff,
}
use agenda_distribuida.Messages.{LogEntry}
use agenda_distribuida.Text.{is_blank}
use agenda_distribuida.RaftLog.{load_committed}
use agenda_distribuida.RaftLog.Order.{Ascending}
use agenda_distribuida.RaftLog.Numbered.{DistinctEvents}
use agenda_distribuida.Node.{Node, Database, healthy, set_last_applied}
use agenda_distribuida.Apply.{
  Applier, is_ignorable_apply_error, has_applied_event, record_applied_event, advance_applied,
  finish_entry, run_entry, apply_entry, apply_rows, apply_committed,
}
use agenda_distribuida.Apply.Progress.{
  Moves, apply_rows_go, apply_rows-Moves, load_committed_between, load_committed_none_left,
}

load_committed_high :
    (a b lo : ℕ) (rs : List LogEntry) → Ascending lo rs → b ≤ lo → load_committed a b rs ≡ []
unfolding load_committed
load_committed_high a b lo [] asc h = refl
load_committed_high a b lo (r ∷ rs) asc h = ground (arith, load_committed_high a b r.index rs asc.1)

load_committed_empty : (a c : ℕ) (rs : List LogEntry) → c ≤ a → load_committed a c rs ≡ []
unfolding load_committed
load_committed_empty a c [] h = refl
load_committed_empty a c (r ∷ rs) h = ground (arith, load_committed_empty a c rs h)

load_committed-split :
    (a b c lo : ℕ) (rs : List LogEntry)
    → a ≤ b
    → b ≤ c
    → Ascending lo rs
    → load_committed a c rs ≡ load_committed a b rs ++ load_committed b c rs
unfolding load_committed
load_committed-split a b c lo [] h k asc = refl
load_committed-split a b c lo (r ∷ rs) h k asc = ground (
  arith,
  load_committed-split a b c r.index rs h k asc.1,
  load_committed_high a b r.index rs asc.1,
)

-- The commit index alone set anew.
abbrev pub with_commit : ℕ → Node → Node
with_commit c n = record n { state = record n.state { commit_index = c } }

abbrev commit_after {ℓ} : {S : Type ℓ} → ℕ → Option String × Node × S → Option String × Node × S
commit_after c (err, n, s) = (err, with_commit c n, s)

module _ {S : Type 0} (applier : Applier S) (db : Database) where
  apply_entry-with_commit :
      (c : ℕ) (e : LogEntry) (n : Node) (s : S)
      → apply_entry applier db e (with_commit c n) s ≡ commit_after c (apply_entry applier db e n s)
  unfolding apply_entry run_entry finish_entry has_applied_event record_applied_event
      advance_applied set_last_applied
  apply_entry-with_commit c e n s = ground arith

  apply_rows-with_commit :
      (c : ℕ) (es : List LogEntry) (n : Node) (s : S)
      → apply_rows applier db es (with_commit c n) s ≡ commit_after c (apply_rows applier db es n s)
  unfolding apply_rows
  apply_rows-with_commit c [] n s = refl
  apply_rows-with_commit c (e ∷ es) n s =
      let step = apply_entry-with_commit c e n s in
      ground (
        arith,
        step,
        apply_rows-with_commit c es (apply_entry applier db e n s).1
            (apply_entry applier db e n s).2,
      )

  apply_rows-append :
      (xs ys : List LogEntry) (n m : Node) (s t : S)
      → apply_rows applier db xs n s ≡ (none, m, t)
      → apply_rows applier db (xs ++ ys) n s ≡ apply_rows applier db ys m t
  unfolding apply_rows
  apply_rows-append [] ys n m s t h = ground arith
  apply_rows-append (x ∷ xs) ys n m s t h = ground (
    arith,
    apply_rows-append xs ys (apply_entry applier db x n s).1 m (apply_entry applier db x n s).2 t,
  )

  -- With a database that answers, a run is the loop over the rows up to the commit index.
  committed_rows :
      (n : Node) (s : S)
      → db.rows_error ≡ none
      → apply_committed (some applier) db n s
        ≡ apply_rows applier db (load_committed n.last_applied n.commit_index n.raft_log) n s
  unfolding apply_committed apply_rows
  committed_rows n s ok =
      ground (arith, load_committed_empty n.last_applied n.commit_index n.raft_log)

-- Applying up to an earlier commit index first, and then up to the node's, ends as applying up to
-- the node's at once: same error, same node, same state machine. The earlier run ends without an
-- error, the log's indexes rise, and the database answers.
pub apply_in_two :
    {S : Type 0} (applier : Applier S) (db : Database) (c : ℕ) (n m : Node) (s t : S)
    → Ascending 0 n.raft_log
    → n.last_applied ≤ c
    → c ≤ n.commit_index
    → db.rows_error ≡ none
    → apply_committed (some applier) db (with_commit c n) s ≡ (none, m, t)
    → apply_committed (some applier) db (with_commit n.commit_index m) t
      ≡ apply_committed (some applier) db n s
apply_in_two applier db c n m s t asc low high ok first =
    let early = load_committed n.last_applied c n.raft_log in
    let rows = load_committed_between n.last_applied c 0 n.raft_log asc in
    let ran = sym (committed_rows applier db (with_commit c n) s ok) ∙ first in
    let moved : Moves c early (with_commit c n) (none, m, t) =
      subst (λ r. Moves c early (with_commit c n) r) ran
        (apply_rows-Moves applier db c early (with_commit c n) s low rows.0 rows.1) in
    let whole : apply_rows applier db early n s ≡ (none, with_commit n.commit_index m, t) =
      apply_rows-with_commit applier db n.commit_index early (with_commit c n) s
      ∙ ap (commit_after n.commit_index) ran in
    let none_left =
      load_committed_none_left n.last_applied m.last_applied c n.raft_log moved.1 (moved.3 refl) in
    let later : load_committed m.last_applied n.commit_index m.raft_log
        ≡ load_committed c n.commit_index n.raft_log =
      ap (load_committed m.last_applied n.commit_index) moved.0.0
      ∙ load_committed-split m.last_applied c n.commit_index 0 n.raft_log moved.2 high asc
      ∙ ap (λ rs. rs ++ load_committed c n.commit_index n.raft_log) none_left in
    committed_rows applier db (with_commit n.commit_index m) t ok
    ∙ ap (λ rs. apply_rows applier db rs (with_commit n.commit_index m) t) later
    ∙ sym (
        apply_rows-append applier db early (load_committed c n.commit_index n.raft_log) n
          (with_commit n.commit_index m) s t whole)
    ∙ ap (λ rs. apply_rows applier db rs n s)
        (sym (load_committed-split n.last_applied c n.commit_index 0 n.raft_log low high asc))
    ∙ sym (committed_rows applier db n s ok)

-- What the state machine goes through when each entry of the list takes effect, in order.
unfoldable pub apply_all : {S : Type 0} → Applier S → List LogEntry → S → S
apply_all applier [] s = s
apply_all applier (e ∷ es) s = apply_all applier es (applier e s).1

-- No entry's effect fails for good on the way.
abbrev pub AppliesCleanly : {S : Type 0} → Applier S → List LogEntry → S → Type 0
AppliesCleanly applier [] s = Unit {0}
AppliesCleanly applier (e ∷ es) s =
    (is_ignorable_apply_error e (applier e s).0 ≡ true) × AppliesCleanly applier es (applier e s).1

-- No entry has a blank event id or one that is recorded.
abbrev pub AreFresh : List LogEntry → Node → Type 0
AreFresh es n =
    All (λ e. (is_blank e.event_id ≡ false) × (lookup e.event_id n.applied_events ≡ none)) es

abbrev pub AreRecorded : List LogEntry → Node → Type 0
AreRecorded es n = All (λ e. lookup e.event_id n.applied_events ≢ none) es

-- A run from the state machine `s` that ended without an error, in the state that the entries lead
-- to, with all their events recorded.
abbrev pub AppliedOnce :
    {S : Type 0} → Applier S → List LogEntry → S → Option String × Node × S → Type 0
AppliedOnce applier es s r = (r.0 ≡ none) × (r.2 ≡ apply_all applier es s) × AreRecorded es r.1

module _ {S : Type 0} (applier : Applier S) where
  apply_entry_fresh :
      (e : LogEntry) (n : Node) (s : S)
      → is_ignorable_apply_error e (applier e s).0 ≡ true
      → is_blank e.event_id ≡ false
      → lookup e.event_id n.applied_events ≡ none
      → ((apply_entry applier healthy e n s).0 ≡ none)
        × ((apply_entry applier healthy e n s).2 ≡ (applier e s).1)
        × ((apply_entry applier healthy e n s).1.applied_events
            ≡ insert e.event_id e.index n.applied_events)
  unfolding apply_entry run_entry finish_entry has_applied_event record_applied_event
      advance_applied set_last_applied
  apply_entry_fresh e n s clean named fresh = ground arith

  fresh_after :
      (e : LogEntry) (es : List LogEntry) (n m : Node)
      → m.applied_events ≡ insert e.event_id e.index n.applied_events
      → All (λ s. str_eq e.event_id s.event_id ≡ false) es
      → AreFresh es n
      → AreFresh es m
  fresh_after e [] n m grown apart fresh = tt
  fresh_after e (d ∷ es) n m grown apart fresh = ground (
    arith,
    lookup-insert e.event_id d.event_id e.index n.applied_events,
    fresh_after e es n m grown apart.1 fresh.1,
  )

  -- A record stays: whatever is applied later, the event of an entry stays recorded.
  finish_entry_keeps :
      (db : Database) (id : String) (e : LogEntry) (n : Node) (s : S)
      → lookup id n.applied_events ≢ none
      → lookup id (finish_entry db e n s).1.applied_events ≢ none
  unfolding finish_entry record_applied_event advance_applied set_last_applied
  finish_entry_keeps db id e n s h =
      ground (arith, lookup-insert e.event_id id e.index n.applied_events)

  apply_entry_keeps :
      (db : Database) (id : String) (e : LogEntry) (n : Node) (s : S)
      → lookup id n.applied_events ≢ none
      → lookup id (apply_entry applier db e n s).1.applied_events ≢ none
  unfolding apply_entry run_entry advance_applied set_last_applied
  apply_entry_keeps db id e n s h = ground (arith, finish_entry_keeps db id e n (applier e s).1 h)

  apply_rows_keeps :
      (db : Database) (id : String) (es : List LogEntry) (n : Node) (s : S)
      → lookup id n.applied_events ≢ none
      → lookup id (apply_rows applier db es n s).1.applied_events ≢ none
  unfolding apply_rows
  apply_rows_keeps db id [] n s h = h
  apply_rows_keeps db id (e ∷ es) n s h =
      let kept = apply_entry_keeps db id e n s h in
      ground (
        arith,
        kept,
        apply_rows_keeps db id es (apply_entry applier db e n s).1 (apply_entry applier db e n s).2,
      )

-- Over entries that are not recorded yet, with distinct and named events and no effect that fails
-- for good, a run ends without an error, the state machine has gone through each entry once and in
-- order, and every event is recorded, so that no later run applies it again.
pub applies_once_in_order :
    {S : Type 0} (applier : Applier S) (es : List LogEntry) (n : Node) (s : S)
    → AreFresh es n
    → DistinctEvents es
    → AppliesCleanly applier es s
    → AppliedOnce applier es s (apply_rows applier healthy es n s)
applies_once_in_order applier [] n s fresh apart clean =
    unfold apply_rows apply_all in (refl, refl, tt)
applies_once_in_order applier (e ∷ es) n s fresh apart clean =
    let step = apply_entry_fresh applier e n s clean.0 fresh.0.0 fresh.0.1 in
    let m = (apply_entry applier healthy e n s).1 in
    let t = (apply_entry applier healthy e n s).2 in
    let ih =
      applies_once_in_order applier es m t (fresh_after applier e es n m step.2 apart.0 fresh.1)
        apart.1 (subst (λ u. AppliesCleanly applier es u) (sym step.1) clean.1) in
    let go = apply_rows_go applier healthy e es n s step.0 in
    let kept = apply_rows_keeps applier healthy e.event_id es m t (λ h. cc (
      h,
      step.2,
      lookup-insert e.event_id e.event_id e.index n.applied_events,
      (eq_iff e.event_id e.event_id).1 refl,
    )) in
    subst (λ r. AppliedOnce applier (e ∷ es) s r) (sym go)
      (ih.0, ih.1 ∙ unfold apply_all in ap (apply_all applier es) step.1, (kept, ih.2))
