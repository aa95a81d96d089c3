-- ===== src/Replication.antt =====
-- `broadcastAppendEntries` of consensus.go: how a leader brings its peers' logs up to its own.
-- The network and the peer behind it are a parameter: `exchange` takes a request to a peer in state
-- `P` and gives the decoded answer, or `none` for a failed call, with the peer's new state. One
-- peer's goroutine runs from its first to its last step here.
pub mod CatchUp
pub mod Collect
use agenda_distribuida.Prelude.{
  ℕ, zero, suc, ◌+◌, ◌-◌, Bool, true, false, String, Option, none, some, List, [], ◌∷◌, lookup,
  insert, length, ltb, leb, ◌==◌, if◌then◌else◌,
}
use agenda_distribuida.Messages.{LogEntry, AppendEntriesRequest, AppendEntriesResponse}
use agenda_distribuida.RaftLog.{load_log_entries_from, log_term_at, last_index_term}
use agenda_distribuida.Peers.{set_leader}
use agenda_distribuida.Node.{Node, follower, Database, set_current_term}
use agenda_distribuida.Commit.{majority_of}

-- The answer names a later term than the broadcast's.
unfoldable pub step_down : Database → ℕ → Node → Node
step_down db term n =
    if ltb n.current_term term
    then (let n' : Node = set_current_term db term n in
        record n' { role = follower; peers = set_leader "" n'.peers })
    else n

unfoldable pub set_progress : String → ℕ → Node → Node
set_progress pid match n = record n {
  match_idx = insert pid match n.match_idx;
  next_idx = insert pid (match + 1) n.next_idx;
}

-- One step back for a peer that refused; a peer without an entry reads as 0.
unfoldable pub retreat : String → Node → Node
retreat pid n =
    let cur : ℕ = elim (lookup pid n.next_idx) [ none ↦ 0 | some v ↦ v ] in
    record n { next_idx = insert pid (if leb cur 1 then 1 else cur - 1) n.next_idx }

unfoldable pub next_for : ℕ → String → Node → ℕ
next_for last pid n = elim (lookup pid n.next_idx) [
  | none ↦ last + 1
  | some v ↦ if v == 0 then last + 1 else v
]

-- A failed logTermAt reads as term 0.
unfoldable pub prev_term_at : Database → ℕ → Node → ℕ
prev_term_at db idx n =
    if idx == 0
    then 0
    else elim (db.query_error idx) [ some e ↦ 0 | none ↦ log_term_at idx n.raft_log ]

unfoldable pub request_from : Database → ℕ → ℕ → ℕ → List LogEntry → Node → AppendEntriesRequest
request_from db term commit prev entries n = record {
  term = term;
  leader_id = n.node_id;
  prev_log_index = prev;
  prev_log_term = prev_term_at db prev n;
  entries = entries;
  leader_commit = commit;
}

-- How one attempt ends: a result for the channel, or another attempt.
pub data Attempt : Type 0 where
  finished : Bool → Node → Attempt
  again : Node → Attempt

unfoldable pub take_answer :
    Database → ℕ → ℕ → String → Option AppendEntriesResponse → Node → Attempt
unfolding step_down set_progress retreat
take_answer db term last pid none n = finished false n
take_answer db term last pid (some resp) n =
    if ltb term resp.term
    then finished false (step_down db resp.term n)
    else if resp.success
    then finished true (
        if ltb 0 resp.match_index
        then set_progress pid resp.match_index n
        else set_progress pid last n)
    else again (retreat pid n)

module _ {P : Type 0} (exchange : AppendEntriesRequest → P → Option AppendEntriesResponse × P) where
  unfoldable pub send : Database → ℕ → ℕ → String → AppendEntriesRequest → Node → P → Attempt × P
  send db term last pid req n p =
      let (resp, p') = exchange req p in (take_answer db term last pid resp n, p')

  unfoldable pub attempt_once : Database → ℕ → ℕ → ℕ → String → Node → P → Attempt × P
  attempt_once db term commit last pid n p =
      if ltb last (next_for last pid n)
      then send db term last pid (request_from db term commit last [] n) n p
      else elim db.rows_error [
        | some e ↦ (finished false n, p)
        | none ↦ elim (load_log_entries_from (next_for last pid n) n.raft_log) [
          | [] ↦ (finished true (set_progress pid last n), p)
          | e ∷ es ↦
              send db term last pid
                (request_from db term commit (next_for last pid n - 1) (e ∷ es) n) n p
        ]
      ]

  -- At most `attempts` of them, 5 in the source; without success after that the result is false.
  unfoldable pub catch_up : ℕ → Database → ℕ → ℕ → ℕ → String → Node → P → Bool × Node × P
  catch_up zero db term commit last pid n p = (false, n, p)
  catch_up (suc attempts) db term commit last pid n p =
      let (outcome, p') = attempt_once db term commit last pid n p in
      elim outcome [
        | finished done n' ↦ (done, n', p')
        | again n' ↦ catch_up attempts db term commit last pid n' p'
      ]

-- The answer to a heartbeat.
unfoldable pub take_heartbeat : Database → ℕ → Option AppendEntriesResponse → Node → Bool × Node
unfolding step_down
take_heartbeat db term none n = (false, n)
take_heartbeat db term (some resp) n =
    if ltb term resp.term then (false, step_down db resp.term n) else (resp.success, n)

-- A heartbeat carries no entries and the leader's last index and term; an error of lastIndexTerm is
-- dropped, and reads as 0 and 0.
unfoldable pub heartbeat_request : Database → ℕ → ℕ → Node → AppendEntriesRequest
heartbeat_request db term commit n =
    let last : ℕ × ℕ = elim db.last_error [ none ↦ last_index_term n.raft_log | some e ↦ (0, 0) ] in
    record {
      term = term;
      leader_id = n.node_id;
      prev_log_index = last.0;
      prev_log_term = last.1;
      entries = [];
      leader_commit = commit;
    }

-- The leader's branch of `loop`: a third failed heartbeat in a row ends its leadership.
unfoldable pub after_heartbeat : Bool → Node → Node
after_heartbeat true n = record n { heartbeat_failures = 0 }
after_heartbeat false n =
    if leb 3 (n.heartbeat_failures + 1)
    then record n { role = follower; peers = set_leader "" n.peers; heartbeat_failures = 0 }
    else record n { heartbeat_failures = n.heartbeat_failures + 1 }

-- The loop that counts the results as they come in; the timer of 3 s fires where they end early.
-- True is a nil error, false the error "append majority failed".
unfoldable pub collect : ℕ → ℕ → ℕ → List Bool → Bool
collect majority zero successes oks = leb majority successes
collect majority (suc pending) successes [] = false
collect majority (suc pending) successes (ok ∷ oks) =
    let successes' = if ok then successes + 1 else successes in
    let rest = collect majority pending successes' oks in
    if leb majority successes' then true else rest

-- The result of a broadcast to `count` peers.
unfoldable pub broadcast_result : ℕ → List Bool → Bool
unfolding collect
broadcast_result count oks = collect (majority_of (count + 1)) count 1 oks
