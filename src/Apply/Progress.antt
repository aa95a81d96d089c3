-- ===== src/Apply/Progress.antt =====
-- How lastApplied moves, and what an error leaves behind.
use agenda_distribuida.Prelude.{
  ℕ, ◌<◌, ◌≤◌, ◌≡◌, ◌≢◌, refl, sym, subst, ◌∙◌, ◌⊎◌, inl, inr, true, false, String, Option, none,
  some, List, [], ◌∷◌, All, arith, Option-cases,
}
use agenda_distribuida.Messages.{LogEntry}
use agenda_distribuida.RaftLog.{load_committed}
use agenda_distribuida.RaftLog.Order.{Ascending, Ascending-mono}
use agenda_distribuida.Node.{Node, Database, is_leader, set_last_applied}
use agenda_distribuida.Apply.{
  Applier, record_applied_event, advance_applied, finish_entry, run_entry, apply_entry, apply_rows,
  apply_committed, Look, look_error, wait_for_applied,
}

-- What no step of applying changes.
abbrev pub SameLog : Node → Node → Type 0
SameLog n m =
    (m.raft_log ≡ n.raft_log)
    × (m.commit_index ≡ n.commit_index)
    × (m.current_term ≡ n.current_term)
    × (m.voted_for ≡ n.voted_for)
    × (m.role ≡ n.role)

pub load_committed-Ascending :
    (la c lo : ℕ) (rs : List LogEntry) → Ascending lo rs → Ascending lo (load_committed la c rs)
unfolding load_committed
load_committed-Ascending la c lo [] asc = tt
load_committed-Ascending la c lo (r ∷ rs) asc = ground (
  arith,
  load_committed-Ascending la c r.index rs asc.1,
  Ascending-mono lo r.index (load_committed la c rs),
)

pub load_committed_between :
    (la c lo : ℕ) (rs : List LogEntry)
    → Ascending lo rs
    → Ascending la (load_committed la c rs) × All (λ e. e.index ≤ c) (load_committed la c rs)
unfolding load_committed
load_committed_between la c lo [] asc = (tt, tt)
load_committed_between la c lo (r ∷ rs) asc = ground (
  arith,
  load_committed_between la c r.index rs asc.1,
  load_committed-Ascending la c r.index rs asc.1,
)

-- Once all loaded rows lie at or below `b`, none is left above it.
pub load_committed_none_left :
    (a b c : ℕ) (rs : List LogEntry)
    → a ≤ b
    → All (λ e. e.index ≤ b) (load_committed a c rs)
    → load_committed b c rs ≡ []
unfolding load_committed
load_committed_none_left a b c [] le small = refl
load_committed_none_left a b c (r ∷ rs) le small =
    ground (arith, load_committed_none_left a b c rs le)

-- What a run over the rows `es`, bounded by `c`, does to the node.
abbrev pub Moves : {S : Type 0} → ℕ → List LogEntry → Node → Option String × Node × S → Type 0
Moves c es n r =
    SameLog n r.1
    × (n.last_applied ≤ r.1.last_applied)
    × (r.1.last_applied ≤ c)
    × (r.0 ≡ none → All (λ e. e.index ≤ r.1.last_applied) es)

module _ {S : Type 0} (applier : Applier S) (db : Database) where
  finish_entry_moves :
      (e : LogEntry) (n : Node) (s : S)
      → SameLog n (finish_entry db e n s).1
        × ((finish_entry db e n s).0 ≡ none → (finish_entry db e n s).1.last_applied ≡ e.index)
        × ((finish_entry db e n s).0 ≢ none
            → (finish_entry db e n s).1.last_applied ≡ n.last_applied)
  unfolding finish_entry record_applied_event advance_applied set_last_applied
  finish_entry_moves e n s = (ground arith, (λ h. ground arith), (λ h. ground arith))

  pub apply_entry_moves :
      (e : LogEntry) (n : Node) (s : S)
      → SameLog n (apply_entry applier db e n s).1
        × ((apply_entry applier db e n s).0 ≡ none
            → (apply_entry applier db e n s).1.last_applied ≡ e.index)
        × ((apply_entry applier db e n s).0 ≢ none
            → (apply_entry applier db e n s).1.last_applied ≡ n.last_applied)
  unfolding apply_entry run_entry advance_applied set_last_applied
  apply_entry_moves e n s =
      let f = finish_entry_moves e n (applier e s).1 in
      (ground (arith, f), (λ h. ground (arith, f.1)), (λ h. ground (arith, f.2)))

  pub apply_rows_go :
      (e : LogEntry) (es : List LogEntry) (n : Node) (s : S)
      → (apply_entry applier db e n s).0 ≡ none
      → apply_rows applier db (e ∷ es) n s
        ≡ apply_rows applier db es (apply_entry applier db e n s).1 (apply_entry applier db e n s).2
  unfolding apply_rows
  apply_rows_go e es n s ok = ground arith

  pub apply_rows_stop :
      (e : LogEntry) (es : List LogEntry) (n : Node) (s : S) (msg : String)
      → (apply_entry applier db e n s).0 ≡ some msg
      → apply_rows applier db (e ∷ es) n s ≡ apply_entry applier db e n s
  unfolding apply_rows
  apply_rows_stop e es n s msg err = ground arith

  -- Rows above lastApplied and at most `c` move it up, and not past `c`; a run without an error
  -- leaves none of them above it.
  pub apply_rows-Moves :
      (c : ℕ) (es : List LogEntry) (n : Node) (s : S)
      → n.last_applied ≤ c
      → Ascending n.last_applied es
      → All (λ e. e.index ≤ c) es
      → Moves c es n (apply_rows applier db es n s)
  apply_rows-Moves c [] n s fits asc small =
      unfold apply_rows in ((refl, refl, refl, refl, refl), omega arith, fits, λ h. tt)
  apply_rows-Moves c (e ∷ es) n s fits asc small =
      let step = apply_entry_moves e n s in
      elim (Option-cases (apply_entry applier db e n s).0) [
        | inl ok ↦
            let ih =
              apply_rows-Moves c es (apply_entry applier db e n s).1
                (apply_entry applier db e n s).2 (omega (arith, step.1 ok)) (rw (step.1 ok) asc.1)
                small.1 in
            subst (λ r. Moves c (e ∷ es) n r) (sym (apply_rows_go e es n s ok))
              (
                ground (arith, step.0, ih.0),
                omega (arith, ih.1, step.1 ok),
                ih.2,
                λ h. (omega (arith, ih.1, step.1 ok), ih.3 h),
              )
        | inr (msg, err) ↦
            let same = step.2 (λ h. cc (h, err)) in
            rw (apply_rows_stop e es n s msg err)
              (step.0, omega (arith, same), omega (arith, same), λ h. cc (h, err))
      ]

-- However a run of applyCommitted ends, it leaves the log, the commit index, the term and the vote
-- as they were, and lastApplied between its old value and the commit index, if it was not above the
-- commit index and the log's indexes rise.
pub apply_committed_bounds :
    {S : Type 0} (applier : Applier S) (db : Database) (n : Node) (s : S)
    → Ascending 0 n.raft_log
    → n.last_applied ≤ n.commit_index
    → SameLog n (apply_committed (some applier) db n s).1
      × (n.last_applied ≤ (apply_committed (some applier) db n s).1.last_applied)
      × ((apply_committed (some applier) db n s).1.last_applied ≤ n.commit_index)
unfolding apply_committed
apply_committed_bounds applier db n s asc fits =
    let rows = load_committed_between n.last_applied n.commit_index 0 n.raft_log asc in
    let run =
      apply_rows-Moves applier db n.commit_index
        (load_committed n.last_applied n.commit_index n.raft_log) n s fits rows.0 rows.1 in
    ground (arith, run)

loads :
    {S : Type 0} (applier : Applier S) (db : Database) (n : Node) (s : S)
    → n.last_applied < n.commit_index
    → db.rows_error ≡ none
    → apply_committed (some applier) db n s
      ≡ apply_rows applier db (load_committed n.last_applied n.commit_index n.raft_log) n s
unfolding apply_committed
loads applier db n s more ok = ground arith

nothing_left :
    {S : Type 0} (applier : Applier S) (db : Database) (m : Node) (t : S)
    → load_committed m.last_applied m.commit_index m.raft_log ≡ []
    → db.rows_error ≡ none
    → apply_committed (some applier) db m t ≡ (none, m, t)
unfolding apply_committed apply_rows
nothing_left applier db m t none_left ok = ground arith

-- A run of applyCommitted that ended without an error has done all there was to do: run again on
-- what it left, it changes neither the node nor the state machine. The log's indexes rise,
-- lastApplied was below the commit index, and the database answers.
pub apply_committed_again :
    {S : Type 0} (applier : Applier S) (db : Database) (n m : Node) (s t : S)
    → Ascending 0 n.raft_log
    → n.last_applied < n.commit_index
    → db.rows_error ≡ none
    → apply_committed (some applier) db n s ≡ (none, m, t)
    → apply_committed (some applier) db m t ≡ (none, m, t)
apply_committed_again applier db n m s t asc more ok done =
    let rows = load_committed_between n.last_applied n.commit_index 0 n.raft_log asc in
    let ran = sym (loads applier db n s more ok) ∙ done in
    let moved : Moves n.commit_index (load_committed n.last_applied n.commit_index n.raft_log) n
        (none, m, t) =
      subst
        (λ r. Moves n.commit_index (load_committed n.last_applied n.commit_index n.raft_log) n r)
        ran
        (apply_rows-Moves applier db n.commit_index
          (load_committed n.last_applied n.commit_index n.raft_log) n s (omega arith) rows.0
          rows.1) in
    let empty =
      load_committed_none_left n.last_applied m.last_applied n.commit_index n.raft_log moved.1
        (moved.3 refl) in
    nothing_left applier db m t (cc (empty, moved.0.0, moved.0.1)) ok

-- Some look shows a leader that has applied up to `target`, with no error at or before it.
abbrev pub ShowsApplied : ℕ → List Look → Type 0
ShowsApplied target [] = ⊥
ShowsApplied target (l ∷ ls) =
    ((is_leader l.role ≡ true) × (target ≤ l.last_applied) × (look_error target l ≡ false))
    ⊎ ShowsApplied target ls

abbrev pub Expires : List Look → Type 0
Expires [] = ⊥
Expires (l ∷ ls) = (l.expired ≡ true) ⊎ Expires ls

wait_ends : (target : ℕ) (looks : List Look) → Expires looks → wait_for_applied target looks ≢ none
unfolding wait_for_applied
wait_ends target [] h = absurd h
wait_ends target (l ∷ ls) h = ground (arith, wait_ends target ls)

wait_shows :
    (target : ℕ) (looks : List Look)
    → wait_for_applied target looks ≡ some none
    → ShowsApplied target looks
unfolding wait_for_applied
wait_shows target [] h = cc
wait_shows target (l ∷ ls) h = ground (arith, wait_shows target ls)

-- A wait that meets its deadline ends, and it ends without an error only after a look at a leader
-- that had applied the entry and had no error at or before it.
pub wait_for_applied_ends :
    (target : ℕ) (looks : List Look)
    → Expires looks
    → (wait_for_applied target looks ≢ none)
      × (wait_for_applied target looks ≡ some none → ShowsApplied target looks)
wait_for_applied_ends target looks h = (wait_ends target looks h, wait_shows target looks)
