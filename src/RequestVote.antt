-- ===== src/RequestVote.antt =====
-- `HandleRequestVote` of consensus.go, in one stretch under the lock.
pub mod Safety
use agenda_distribuida.Prelude.{
  ℕ, Bool, true, false, not, ◌&&◌, ◌||◌, String, Option, none, some, ltb, ◌==◌, str_eq,
  if◌then◌else◌,
}
use agenda_distribuida.Messages.{RequestVoteRequest, RequestVoteResponse}
use agenda_distribuida.RaftLog.{last_index_term}
use agenda_distribuida.Node.{Node, Database, Reply, set_current_term, set_voted_for}

abbrev pub vote : Bool → Node → RequestVoteResponse
vote granted n = record { term = n.current_term; vote_granted = granted }

-- The node's log is ahead of the candidate's.
abbrev pub log_outdated : RequestVoteRequest → ℕ × ℕ → Bool
log_outdated req (last_idx, last_term) =
    ltb req.last_log_term last_term
    || (last_term == req.last_log_term && ltb req.last_log_index last_idx)

unfoldable pub answer_pre_vote :
    Database → RequestVoteRequest → Node → Reply RequestVoteResponse × Node
answer_pre_vote db req n = elim db.last_error [
  | some e ↦ ((vote false n, some e), n)
  | none ↦ ((vote (not (log_outdated req (last_index_term n.raft_log))) n, none), n)
]

-- A higher term is taken over, and the vote is free again.
unfoldable pub observe_candidate : Database → RequestVoteRequest → Node → Node
observe_candidate db req n =
    if ltb n.current_term req.term then set_voted_for db "" (set_current_term db req.term n) else n

unfoldable pub decide_vote : Database → RequestVoteRequest → Node → Reply RequestVoteResponse × Node
decide_vote db req n =
    if not (str_eq n.voted_for "") && not (str_eq n.voted_for req.candidate_id)
    then ((vote false n, none), n)
    else elim db.last_error [
      | some e ↦ ((vote false n, some e), n)
      | none ↦
          if log_outdated req (last_index_term n.raft_log)
          then ((vote false n, none), n)
          else let n' : Node = set_voted_for db req.candidate_id n in ((vote true n', none), n')
    ]

unfoldable pub handle_request_vote :
    Database → RequestVoteRequest → Node → Reply RequestVoteResponse × Node
handle_request_vote db req n =
    if ltb req.term n.current_term
    then ((vote false n, none), n)
    else if req.pre_vote
    then answer_pre_vote db req n
    else decide_vote db req (observe_candidate db req n)
