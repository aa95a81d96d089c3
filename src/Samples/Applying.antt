-- ===== src/Samples/Applying.antt =====
-- The theorems on applying and proposing, at work on node a.
use agenda_distribuida.Prelude.{
  String, true, ◌≡◌, ◌≢◌, ◌≤◌, inl, refl, Option, none, some, [], ◌∷◌, arith, List, lookup,
}
use agenda_distribuida.Text.{is_blank}
use agenda_distribuida.RaftLog.{load_committed, next_index, max_index}
use agenda_distribuida.Node.{Node, healthy}
use agenda_distribuida.Apply.{
  apply_committed, apply_rows, apply_entry, run_entry, finish_entry, has_applied_event,
  record_applied_event, advance_applied, is_ignorable_apply_error, wait_for_applied, look_error,
}
use agenda_distribuida.Apply.Progress.{apply_committed_bounds, wait_for_applied_ends, ShowsApplied}
use agenda_distribuida.Apply.Chunks.{with_commit, apply_in_two, apply_all, applies_once_in_order}
use agenda_distribuida.Propose.{Broadcast, propose, replicate_and_commit, await}
use agenda_distribuida.Propose.Guards.{proposed_is_applied}
use agenda_distribuida.RaftLog.Numbered.{Numbered}
use agenda_distribuida.Samples.{node_a, first_entry, second_entry, entry, recorder, look_at}

-- Node a with all three entries committed and none applied.
abbrev committed_a : Node
committed_a = with_commit 3 node_a

-- It after a run up to the first entry.
abbrev after_one : Option String × Node × List String
after_one = apply_committed (some recorder) healthy (with_commit 1 committed_a) []

one_ran : after_one ≡ (none, after_one.1, after_one.2)
unfolding apply_committed apply_rows apply_entry run_entry finish_entry has_applied_event
    record_applied_event advance_applied load_committed lookup is_blank is_ignorable_apply_error
one_ran = refl

apply_in_two_example :
    apply_committed (some recorder) healthy (with_commit 3 after_one.1) after_one.2
    ≡ apply_committed (some recorder) healthy committed_a []
apply_in_two_example =
    apply_in_two recorder healthy 1 committed_a after_one.1 [] after_one.2 (omega arith)
      (omega arith) (omega arith) refl one_ran

apply_committed_bounds_example :
    (apply_committed (some recorder) healthy committed_a []).1.last_applied ≤ 3
apply_committed_bounds_example =
    (apply_committed_bounds recorder healthy committed_a [] (omega arith) (omega arith)).2

applies_once_in_order_example :
    (apply_rows recorder healthy (first_entry ∷ second_entry ∷ []) node_a []).2
    ≡ apply_all recorder (first_entry ∷ second_entry ∷ []) []
unfolding is_blank is_ignorable_apply_error lookup
applies_once_in_order_example =
    (applies_once_in_order recorder (first_entry ∷ second_entry ∷ []) node_a []
      ((refl, refl), ((refl, refl), tt)) ((refl, tt), (tt, tt)) (refl, (refl, tt))).1

applied_operations :
    apply_all recorder (first_entry ∷ second_entry ∷ []) [] ≡ "group.create" ∷ "user.create" ∷ []
unfolding apply_all
applied_operations = refl

wait_for_applied_ends_example : wait_for_applied 3 (look_at 2 ∷ look_at 3 ∷ []) ≢ none
wait_for_applied_ends_example = (wait_for_applied_ends 3 (look_at 2 ∷ look_at 3 ∷ []) (inl refl)).0

-- A broadcast that reaches a majority at once.
abbrev reaches_all : Broadcast
reaches_all term entries commit n = (true, n)

proposed_is_applied_example : ShowsApplied (next_index node_a.raft_log) (look_at 4 ∷ [])
unfolding propose replicate_and_commit await wait_for_applied look_error next_index max_index
proposed_is_applied_example =
    (proposed_is_applied (some recorder) reaches_all healthy (entry 0 0 "ev4" "user.create")
      (look_at 4 ∷ []) node_a [] (inl refl) refl).2
