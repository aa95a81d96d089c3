-- ===== src/AppendEntries.antt =====
-- `HandleAppendEntries` of consensus.go: what a node does with the entries of a leader. The handler
-- holds the lock throughout, so it is one function of the state.
pub mod Terms
pub mod Logs
pub mod Replicate
use agenda_distribuida.Prelude.{
  ℕ, ◌+◌, ◌-◌, Bool, true, false, not, ◌&&◌, String, Option, none, some, List, [], ◌∷◌, ltb, leb,
  ◌==◌, str_eq, if◌then◌else◌,
}
use agenda_distribuida.Messages.{LogEntry, AppendEntriesRequest, AppendEntriesResponse}
use agenda_distribuida.RaftLog.{append_log, truncate_log_from, log_term_at}
use agenda_distribuida.Peers.{set_leader}
use agenda_distribuida.Node.{
  Node, Role, follower, leader, is_leader, Database, Reply, set_current_term, set_commit_index,
  set_last_applied,
}

-- The request's leader is taken as leader and this node follows it.
unfoldable pub follow_leader : String → Node → Node
follow_leader id n = record n {
  role = follower;
  peers = set_leader id n.peers;
  heartbeat_failures = 0;
}

-- Called with a term that is not below the node's own.
unfoldable pub observe_leader : Database → AppendEntriesRequest → Node → Node
unfolding follow_leader
observe_leader db req n =
    if ltb n.current_term req.term
    then follow_leader req.leader_id (set_current_term db req.term n)
    else if is_leader n.role && not (str_eq req.leader_id n.node_id)
    then follow_leader req.leader_id n
    else if is_leader n.role
    then n
    else record n { peers = set_leader req.leader_id n.peers }

-- The send on the channel does not block: a token that is there already stays the only one.
unfoldable pub reset_timer : AppendEntriesRequest → Node → Node
reset_timer req n =
    if not (str_eq req.leader_id n.node_id) && not (is_leader n.role)
    then record n { reset_pending = true }
    else n

abbrev pub answer : Bool → ℕ → Node → AppendEntriesResponse
answer done match n = record { term = n.current_term; success = done; match_index = match }

-- No statement is sent for an index that is not positive.
abbrev pub truncate_failure : Database → ℕ → Option String
truncate_failure db idx = if idx == 0 then none else db.truncate_error idx

-- The entry before the sent ones has another term: cut the log there, and pull back both counters.
unfoldable pub cut_log : Database → ℕ → Node → Node
cut_log db prev n = elim (truncate_failure db prev) [
  | none ↦ record n { raft_log = truncate_log_from prev n.raft_log }
  | some e ↦ n
]

unfoldable pub retreat_applied : Database → ℕ → Node → Node
retreat_applied db prev n = if leb prev n.last_applied then set_last_applied db (prev - 1) n else n

unfoldable pub retreat_commit : Database → ℕ → Node → Node
retreat_commit db prev n = if leb prev n.commit_index then set_commit_index db (prev - 1) n else n

unfoldable pub reject_prev : Database → ℕ → Node → Node
reject_prev db prev n = retreat_commit db prev (retreat_applied db prev (cut_log db prev n))

-- The loop over the entries: the rows it leaves, the last index stored, and the error of a
-- truncation that stopped it. A failed append stops it without an error.
pub data Stored : Type 0 where
  stored : List LogEntry → ℕ → Stored
  refused : List LogEntry → ℕ → Option String → Stored

unfoldable pub store_entries : Database → List LogEntry → ℕ → List LogEntry → Stored
store_entries db [] last rows = stored rows last
store_entries db (e ∷ es) last rows = elim (truncate_failure db e.index) [
  | some err ↦ refused rows last (some err)
  | none ↦ elim (db.append_error e) [
    | some err ↦ refused (truncate_log_from e.index rows) last none
    | none ↦ store_entries db es e.index (append_log e (truncate_log_from e.index rows))
  ]
]

unfoldable pub learn_commit : Database → ℕ → Node → Node
learn_commit db leader_commit n =
    if ltb n.commit_index leader_commit then set_commit_index db leader_commit n else n

unfoldable pub accept_entries :
    Database → AppendEntriesRequest → Node → Reply AppendEntriesResponse × Node
unfolding learn_commit
accept_entries db req n = elim (store_entries db req.entries req.prev_log_index n.raft_log) [
  | refused rows last err ↦
      let n' : Node = record n { raft_log = rows } in ((answer false last n', err), n')
  | stored rows last ↦
      let n' : Node = learn_commit db req.leader_commit (record n { raft_log = rows }) in
      ((answer true last n', none), n')
]

unfoldable pub check_prev :
    Database → AppendEntriesRequest → Node → Reply AppendEntriesResponse × Node
check_prev db req n = elim (db.query_error req.prev_log_index) [
  | some e ↦ ((answer false n.last_applied n, some e), n)
  | none ↦
      if log_term_at req.prev_log_index n.raft_log == req.prev_log_term
      then accept_entries db req n
      else let n' : Node = reject_prev db req.prev_log_index n in
        ((answer false n'.last_applied n', none), n')
]

unfoldable pub handle_append_entries :
    Database → AppendEntriesRequest → Node → Reply AppendEntriesResponse × Node
handle_append_entries db req n =
    if ltb req.term n.current_term
    then ((answer false n.last_applied n, none), n)
    else let n' : Node = reset_timer req (observe_leader db req n) in
      if ltb 0 req.prev_log_index then check_prev db req n' else accept_entries db req n'
