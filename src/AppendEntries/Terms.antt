-- ===== src/AppendEntries/Terms.antt =====
-- Terms, roles and raft_meta across HandleAppendEntries.
use agenda_distribuida.Prelude.{
  ℕ, ◌<◌, ◌≤◌, true, false, ◌≡◌, ◌≢◌, ltb, arith, eq_iff, if◌then◌else◌,
}
use agenda_distribuida.Messages.{AppendEntriesRequest}
use agenda_distribuida.Peers.{set_leader}
use agenda_distribuida.Node.{
  Node, is_leader, Database, set_current_term, set_commit_index, set_last_applied,
}
use agenda_distribuida.AppendEntries.{
  observe_leader, reset_timer, reject_prev, cut_log, retreat_applied, retreat_commit,
  accept_entries, check_prev, handle_append_entries,
}

-- The parts of the state that no later step of the handler changes.
abbrev pub SameStanding : Node → Node → Type 0
SameStanding n m =
    (m.current_term ≡ n.current_term)
    × (m.voted_for ≡ n.voted_for)
    × (m.role ≡ n.role)
    × (m.peers ≡ n.peers)
    × (m.reset_pending ≡ n.reset_pending)

reject_prev-SameStanding :
    (db : Database) (prev : ℕ) (n : Node) → SameStanding n (reject_prev db prev n)
unfolding reject_prev cut_log retreat_applied retreat_commit set_last_applied set_commit_index
reject_prev-SameStanding db prev n = ground arith

accept_entries-SameStanding :
    (db : Database) (req : AppendEntriesRequest) (n : Node)
    → SameStanding n (accept_entries db req n).1
      × ((accept_entries db req n).0.0.term ≡ n.current_term)
unfolding accept_entries set_commit_index
accept_entries-SameStanding db req n = ground arith

check_prev-SameStanding :
    (db : Database) (req : AppendEntriesRequest) (n : Node)
    → SameStanding n (check_prev db req n).1 × ((check_prev db req n).0.0.term ≡ n.current_term)
unfolding check_prev
check_prev-SameStanding db req n =
    ground (
      arith,
      accept_entries-SameStanding db req n,
      reject_prev-SameStanding db req.prev_log_index n,
    )

-- The state in which the handler meets the entries of a request that it does not turn away.
abbrev pub greeted : Database → AppendEntriesRequest → Node → Node
greeted db req n = reset_timer req (observe_leader db req n)

handle-SameStanding :
    (db : Database) (req : AppendEntriesRequest) (n : Node)
    → n.current_term ≤ req.term
    → SameStanding (greeted db req n) (handle_append_entries db req n).1
      × ((handle_append_entries db req n).0.0.term ≡ (greeted db req n).current_term)
unfolding handle_append_entries
handle-SameStanding db req n h = ground (
  arith,
  accept_entries-SameStanding db req (greeted db req n),
  check_prev-SameStanding db req (greeted db req n),
)

-- A request of an older term is turned away: nothing of the node changes, and the answer shows its
-- own term and no success.
pub append_entries_stale :
    (db : Database) (req : AppendEntriesRequest) (n : Node)
    → req.term < n.current_term
    → (handle_append_entries db req n).1 ≡ n
      × ((handle_append_entries db req n).0.0.success ≡ false)
      × ((handle_append_entries db req n).0.0.term ≡ n.current_term)
unfolding handle_append_entries
append_entries_stale db req n h = ground arith

-- After any request the node's term is the larger of its own and the request's, the answer shows it,
-- and the recorded vote is as it was.
pub append_entries_term :
    (db : Database) (req : AppendEntriesRequest) (n : Node)
    → ((handle_append_entries db req n).1.current_term
        ≡ (if ltb n.current_term req.term then req.term else n.current_term))
      × ((handle_append_entries db req n).0.0.term
          ≡ (handle_append_entries db req n).1.current_term)
      × ((handle_append_entries db req n).1.voted_for ≡ n.voted_for)
unfolding reset_timer observe_leader set_current_term
append_entries_term db req n =
    ground (arith, append_entries_stale db req n, handle-SameStanding db req n)

-- A request of another node whose term is not older leaves this node no leader, with the sender as
-- its known leader and the election timer set to start anew.
pub append_entries_follow :
    (db : Database) (req : AppendEntriesRequest) (n : Node)
    → n.current_term ≤ req.term
    → req.leader_id ≢ n.node_id
    → (is_leader (handle_append_entries db req n).1.role ≡ false)
      × ((handle_append_entries db req n).1.peers.leader ≡ req.leader_id)
      × ((handle_append_entries db req n).1.reset_pending ≡ true)
unfolding reset_timer observe_leader set_current_term set_leader
append_entries_follow db req n h other =
    ground (arith, eq_iff req.leader_id n.node_id, handle-SameStanding db req n h)
