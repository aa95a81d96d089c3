-- ===== src/Election.antt =====
-- `startElection`, `runPreVote` and `electionTimeout` of consensus.go.
-- What comes from the peers is a list, in the order of arrival; where it ends before every peer has
-- answered, the timer of 3 s fires. The lock is free while votes come in: the requests that the
-- node handles then are the argument `meanwhile`.
pub mod Outcome
use agenda_distribuida.Prelude.{
  ℕ, zero, suc, ◌+◌, ◌*◌, ◌/◌, ◌%◌, Bool, true, false, ◌&&◌, ◌||◌, String, Option, none, some, List,
  [], ◌∷◌, map, Table, insert, length, ltb, leb, ◌==◌, if◌then◌else◌,
}
use agenda_distribuida.Messages.{RequestVoteRequest, RequestVoteResponse}
use agenda_distribuida.RaftLog.{last_index_term}
use agenda_distribuida.Peers.{set_leader}
use agenda_distribuida.Node.{Node, candidate, leader, Database, persist_meta, persist_meta_string}
use agenda_distribuida.RequestVote.Safety.{Incoming, deliver}
use agenda_distribuida.Commit.{active_peers, majority_of}

-- What comes of a request to one peer: no answer or a status outside 200..299, an answer with a body
-- that does not decode, or a decoded answer.
pub data VoteReply : Type 0 where
  unreachable : VoteReply
  garbled : VoteReply
  replied : RequestVoteResponse → VoteReply

-- runPreVote reads the answer.
unfoldable pub pre_vote_ok : VoteReply → Bool
pre_vote_ok unreachable = false
pre_vote_ok garbled = false
pre_vote_ok (replied r) = r.vote_granted

-- startElection asks by postJSON, which reads the status alone.
unfoldable pub post_json_ok : VoteReply → Bool
post_json_ok unreachable = false
post_json_ok garbled = true
post_json_ok (replied r) = true

-- The test after each arrival, at the timeout and at the end: a majority of the peers that came back
-- so far, or the degraded mode.
unfoldable pub wins : ℕ → ℕ → ℕ → Bool
wins attempted reachable votes =
    leb (majority_of reachable) votes
    || (votes == 1 && ltb 0 attempted && (reachable == 2 || reachable == 3))

-- The loop `for pending := len(peers); pending > 0; pending--`.
unfoldable pub gather : ℕ → ℕ → ℕ → ℕ → List Bool → Bool
unfolding wins
gather attempted zero reachable votes oks = wins attempted reachable votes
gather attempted (suc pending) reachable votes [] = wins attempted reachable votes
gather attempted (suc pending) reachable votes (ok ∷ oks) =
    let votes' = if ok then votes + 1 else votes in
    let rest = gather attempted pending (reachable + 1) votes' oks in
    if wins attempted (reachable + 1) votes' then true else rest

unfoldable pub run_pre_vote : List VoteReply → Node → Bool
run_pre_vote replies n =
    let attempted = length (active_peers n) in
    gather attempted attempted 1 1 (map pre_vote_ok replies)

unfoldable pub count_failure : Node → Node
count_failure n =
    if ltb n.failed_elections 10 then record n { failed_elections = n.failed_elections + 1 } else n

-- The node takes the next term and writes its own vote; state.VotedFor in memory is not set.
unfoldable pub campaign : Database → Node → Node
campaign db n = record n {
  state = record n.state { current_term = n.current_term + 1 };
  role = candidate;
  raft_meta =
      persist_meta_string db "votedFor" n.node_id
        (persist_meta db "currentTerm" (n.current_term + 1) n.raft_meta);
}

unfoldable pub deliver_all : List Incoming → Node → Node
deliver_all [] n = n
deliver_all (m ∷ ms) n = deliver_all ms (deliver m n)

-- An error of lastIndexTerm is dropped, and reads as index 0.
unfoldable pub last_index_or_zero : Database → Node → ℕ
last_index_or_zero db n = elim db.last_error [ none ↦ (last_index_term n.raft_log).0 | some e ↦ 0 ]

unfoldable pub fill : List String → ℕ → Table ℕ → Table ℕ
fill [] v m = m
fill (id ∷ ids) v m = fill ids v (insert id v m)

unfoldable pub become_leader : Database → List String → Node → Node
become_leader db ids n = record n {
  role = leader;
  peers = set_leader n.node_id n.peers;
  heartbeat_failures = 0;
  failed_elections = 0;
  next_idx = fill ids (last_index_or_zero db n + 1) [];
  match_idx = fill ids 0 [];
}

unfoldable pub start_election :
    Database → List VoteReply → List VoteReply → List Incoming → Node → Option String × Node
start_election db pre_replies replies meanwhile n =
    if run_pre_vote pre_replies n
    then (let asking : Node = campaign db n in
        let ids = active_peers asking in
        let later : Node = deliver_all meanwhile asking in
        if gather (length ids) (length ids) 1 1 (map post_json_ok replies)
        then (none, become_leader db ids later)
        else if ltb (length replies) (length ids)
        then (some "election timeout", count_failure later)
        else (some "not enough votes", count_failure later))
    else (some "prevote failed", count_failure n)

-- Nanoseconds: 5 s, a backoff of 2 s for each of up to three lost elections, and a jitter below 2 s
-- from the clock.
unfoldable pub election_timeout : ℕ → ℕ → ℕ
election_timeout failed clock =
    5_000_000_000 + (if ltb 3 failed then 3 else failed) * 2_000_000_000 + clock % 2_000_000_000
