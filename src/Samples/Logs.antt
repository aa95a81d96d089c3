-- ===== src/Samples/Logs.antt =====
-- The theorems on logs, at work on nodes a and b.
use agenda_distribuida.Prelude.{◌≡◌, ◌≤◌, refl, [], ◌∷◌, arith, lookup}
use agenda_distribuida.RaftLog.{
  below, load_log_entries_from, log_term_at, term_at, last_index_term, last_row,
}
use agenda_distribuida.RaftLog.Order.{Ascending}
use agenda_distribuida.Node.{healthy}
use agenda_distribuida.AppendEntries.{handle_append_entries}
use agenda_distribuida.AppendEntries.Logs.{append_entries-Ascending}
use agenda_distribuida.AppendEntries.Replicate.{IsLeaderLog, follower_copies_leader}
use agenda_distribuida.Replication.{catch_up}
use agenda_distribuida.Replication.CatchUp.{follower_exchange, catch_up_copies}
use agenda_distribuida.Commit.{recalculate_commit_index}
use agenda_distribuida.Commit.Majority.{commit_is_majority}
use agenda_distribuida.Samples.{
  node_a, node_b, suffix_for_b, first_entry, second_entry, third_entry,
}

leader_log : IsLeaderLog (first_entry ∷ second_entry ∷ third_entry ∷ [])
leader_log = record {
  numbered = (refl, (refl, (refl, tt)));
  distinct = ((refl, (refl, tt)), ((refl, tt), (tt, tt)));
}

follower_copies_leader_example :
    (handle_append_entries healthy suffix_for_b node_b).1.raft_log
    ≡ first_entry ∷ second_entry ∷ third_entry ∷ []
unfolding load_log_entries_from log_term_at term_at below
follower_copies_leader_example =
    (follower_copies_leader (first_entry ∷ []) (third_entry ∷ []) second_entry suffix_for_b node_b
      leader_log refl refl refl (omega arith) refl).0

catch_up_copies_example :
    (catch_up follower_exchange 5 healthy 2 1 3 "b" node_a node_b).2.raft_log ≡ node_a.raft_log
unfolding below lookup
catch_up_copies_example =
    (catch_up_copies (first_entry ∷ []) (third_entry ∷ []) second_entry 4 2 1 "b" node_a node_b refl
      leader_log refl (omega arith) refl).1

commit_is_majority_example :
    node_a.commit_index ≤ (recalculate_commit_index healthy node_a).commit_index
unfolding last_index_term last_row
commit_is_majority_example = (commit_is_majority healthy node_a refl refl (omega arith)).0

append_entries-Ascending_example :
    Ascending 0 (handle_append_entries healthy suffix_for_b node_b).1.raft_log
append_entries-Ascending_example =
    append_entries-Ascending healthy suffix_for_b node_b (omega arith) (omega arith)
