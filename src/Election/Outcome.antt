-- ===== src/Election/Outcome.antt =====
-- Who wins an election.
use agenda_distribuida.Prelude.{
  ℕ, zero, suc, ◌+◌, ◌<◌, ◌≤◌, ◌≡◌, inl, inr, refl, Bool, true, false, String, none, some, List, [],
  ◌∷◌, map, Table, lookup, insert, lookup-insert, length, All, arith, eq_iff,
}
use agenda_distribuida.Messages.{RequestVoteRequest}
use agenda_distribuida.RaftLog.{last_index_term}
use agenda_distribuida.Peers.{set_leader}
use agenda_distribuida.Node.{Node, leader, candidate, Database}
use agenda_distribuida.RequestVote.{handle_request_vote}
use agenda_distribuida.RequestVote.Safety.{Incoming, UpToDate, vote_exact}
use agenda_distribuida.Commit.{active_peers}
use agenda_distribuida.Election.{
  VoteReply, pre_vote_ok, post_json_ok, gather, run_pre_vote, campaign, deliver_all,
  last_index_or_zero, fill, become_leader, start_election, election_timeout,
}

-- Every round of voting is won: with no answer the node is a majority of itself, and the first
-- answer wins by a majority of two or by the degraded mode.
gather_wins : (attempted : ℕ) (oks : List Bool) → gather attempted attempted 1 1 oks ≡ true
unfolding gather
gather_wins zero oks = refl
gather_wins (suc k) [] = refl
gather_wins (suc k) (ok ∷ oks) = ground arith

run_pre_vote_wins : (replies : List VoteReply) (n : Node) → run_pre_vote replies n ≡ true
unfolding run_pre_vote
run_pre_vote_wins replies n = gather_wins (length (active_peers n)) (map pre_vote_ok replies)

won :
    (db : Database) (pre replies : List VoteReply) (meanwhile : List Incoming) (n : Node)
    → start_election db pre replies meanwhile n ≡ (
      none,
      become_leader db (active_peers (campaign db n)) (deliver_all meanwhile (campaign db n)),
    )
unfolding start_election
won db pre replies meanwhile n = ground (
  arith,
  run_pre_vote_wins pre n,
  gather_wins (length (active_peers (campaign db n))) (map post_json_ok replies),
)

-- Whatever the peers answer to the pre-vote and to the vote, refusals and silence included, and
-- whatever requests come in meanwhile, startElection ends without an error, with the node as leader
-- and as its own known leader.
pub election_always_won :
    (db : Database) (pre replies : List VoteReply) (meanwhile : List Incoming) (n : Node)
    → ((start_election db pre replies meanwhile n).0 ≡ none)
      × ((start_election db pre replies meanwhile n).1.role ≡ leader)
      × ((start_election db pre replies meanwhile n).1.peers.leader
          ≡ (deliver_all meanwhile (campaign db n)).node_id)
unfolding become_leader set_leader
election_always_won db pre replies meanwhile n =
    rw (won db pre replies meanwhile n) (refl, refl, refl)

-- A candidate that had no vote in memory grants the vote of its own term to another candidate with
-- an up-to-date log, after it has written a vote for itself.
pub candidate_votes_again :
    (db : Database) (req : RequestVoteRequest) (n : Node)
    → n.voted_for ≡ ""
    → req.term ≡ n.current_term + 1
    → req.pre_vote ≡ false
    → db.last_error ≡ none
    → UpToDate req n
    → ((campaign db n).role ≡ candidate)
      × ((campaign db n).current_term ≡ req.term)
      × ((handle_request_vote db req (campaign db n)).0.0.vote_granted ≡ true)
unfolding campaign
candidate_votes_again db req n unset next real ok good = (
  refl,
  omega arith,
  (vote_exact db req (campaign db n) real ok).0.1 (omega arith, inr (inl unset), good),
)

-- The timeout lies between 5 s and 13 s.
pub election_timeout_bounds :
    (failed clock : ℕ)
    → (5_000_000_000 ≤ election_timeout failed clock)
      × (election_timeout failed clock < 13_000_000_000)
unfolding election_timeout
election_timeout_bounds failed clock = ground arith

lookup-fill_other :
    (ids : List String) (v : ℕ) (id : String) (m : Table ℕ)
    → lookup id m ≡ some v
    → lookup id (fill ids v m) ≡ some v
unfolding fill
lookup-fill_other [] v id m h = h
lookup-fill_other (j ∷ ids) v id m h =
    lookup-fill_other ids v id (insert j v m) (ground (arith, lookup-insert j id v m))

pub lookup-fill :
    (ids : List String) (v : ℕ) (m : Table ℕ) → All (λ id. lookup id (fill ids v m) ≡ some v) ids
unfolding fill
lookup-fill [] v m = tt
lookup-fill (id ∷ ids) v m = (
  lookup-fill_other ids v id (insert id v m)
      (ground (arith, lookup-insert id id v m, eq_iff id id)),
  lookup-fill ids v (insert id v m),
)

-- The winner starts over with every active peer: the next entry to send is the one past its own last
-- index, and nothing is known to be held, the database answering.
pub winner_knows_nothing :
    (db : Database) (pre replies : List VoteReply) (meanwhile : List Incoming) (n : Node)
    → db.last_error ≡ none
    → let w = (start_election db pre replies meanwhile n).1 in
      All
        (λ id.
          (lookup id w.next_idx
            ≡ some ((last_index_term (deliver_all meanwhile (campaign db n)).raft_log).0 + 1))
          × (lookup id w.match_idx ≡ some 0))
        (active_peers (campaign db n))
unfolding become_leader last_index_or_zero campaign active_peers
winner_knows_nothing db pre replies meanwhile n ok =
    rw (won db pre replies meanwhile n, ok)
      (both _ _ _ _ (active_peers (campaign db n)) (lookup-fill (active_peers (campaign db n)) _ [])
        (lookup-fill (active_peers (campaign db n)) 0 []))
  where
    both :
        (a b : Table ℕ) (v w : ℕ) (ids : List String)
        → All (λ id. lookup id a ≡ some v) ids
        → All (λ id. lookup id b ≡ some w) ids
        → All (λ id. (lookup id a ≡ some v) × (lookup id b ≡ some w)) ids
    both a b v w [] h k = tt
    both a b v w (id ∷ ids) h k = ((h.0, k.0), both a b v w ids h.1 k.1)
