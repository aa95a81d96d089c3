-- ===== src/Samples/Voting.antt =====
-- The theorems on votes, at work on node b.
use agenda_distribuida.Prelude.{true, ◌≡◌, ◌≤◌, ◌↔◌, refl, [], ◌∷◌, arith, List}
use agenda_distribuida.Messages.{RequestVoteRequest}
use agenda_distribuida.RaftLog.{
  last_index_term, last_row, append_log, truncate_log_from, below, drop_conflicts, insert_row,
  log_term_at, term_at,
}
use agenda_distribuida.Node.{healthy, load_state, set_voted_for, set_current_term, set_commit_index}
use agenda_distribuida.RequestVote.{handle_request_vote, decide_vote, observe_candidate}
use agenda_distribuida.AppendEntries.{
  handle_append_entries, check_prev, accept_entries, store_entries, observe_leader, reset_timer,
  follow_leader, learn_commit,
}
use agenda_distribuida.RequestVote.Safety.{
  Incoming, appends, asks, ballot, deliver, ballots, OnePerTerm, vote_once_per_term, UpToDate,
  IsFreeFor, vote_exact,
}
use agenda_distribuida.Election.{deliver_all}
use agenda_distribuida.Recovery.{restart_recovers}
use agenda_distribuida.Samples.{texts_differ, node_b, suffix_for_b, ask}

abbrev requests : List Incoming
requests =
    asks healthy (ask "c" 3)
    ∷ asks healthy (ask "a" 3)
    ∷ appends healthy suffix_for_b
    ∷ asks healthy (ask "a" 4)
    ∷ []

vote_once_per_term_example : OnePerTerm (ballots requests node_b)
vote_once_per_term_example =
    vote_once_per_term requests node_b
      (texts_differ "c" "" refl, (texts_differ "a" "" refl, (tt, (texts_differ "a" "" refl, tt))))

-- Both candidates of the two terms are answered in turn: b votes for c, then for a.
requests_get_two_votes : ballots requests node_b ≡ (3, "c") ∷ (4, "a") ∷ []
unfolding ballots ballot deliver handle_request_vote decide_vote observe_candidate set_voted_for
    set_current_term last_index_term last_row handle_append_entries check_prev accept_entries
    store_entries observe_leader reset_timer follow_leader append_log truncate_log_from below
    drop_conflicts insert_row learn_commit log_term_at term_at
requests_get_two_votes = refl

restart_recovers_example :
    load_state (deliver_all requests node_b).raft_meta ≡ (deliver_all requests node_b).state
unfolding deliver_all deliver handle_request_vote decide_vote observe_candidate set_voted_for
    set_current_term last_index_term last_row handle_append_entries check_prev accept_entries
    store_entries observe_leader reset_timer follow_leader append_log truncate_log_from below
    drop_conflicts insert_row learn_commit log_term_at term_at set_commit_index
restart_recovers_example =
    restart_recovers requests node_b ((λ k. refl), ((λ k. refl), ((λ k. refl), ((λ k. refl), tt))))
      refl
      (record { term_fits = omega arith; commit_fits = omega arith; applied_fits = omega arith })

vote_exact_example :
    ((handle_request_vote healthy (ask "c" 3) node_b).0.0.vote_granted ≡ true)
    ↔ ((node_b.current_term ≤ 3) × IsFreeFor (ask "c" 3) node_b × UpToDate (ask "c" 3) node_b)
vote_exact_example = (vote_exact healthy (ask "c" 3) node_b refl refl).0

abbrev probe : RequestVoteRequest
probe = record (ask "c" 1) { pre_vote = true }
