-- ===== src/Propose.antt =====
-- `Propose` and `replicateAndCommit` of consensus.go: a change on its way through the leader.
-- The broadcast to the peers is a parameter (Replication models it): it takes the term, the entries,
-- the commit index and the node, and gives whether a majority was reached with the node after it.
-- `looks` is what waitForApplied reads while other goroutines go on.
pub mod Guards
pub mod Appended
use agenda_distribuida.Prelude.{
  ℕ, zero, suc, Bool, true, false, not, String, Option, none, some, List, [], ◌∷◌, if◌then◌else◌,
}
use agenda_distribuida.Messages.{LogEntry}
use agenda_distribuida.RaftLog.{append_log, next_index}
use agenda_distribuida.Node.{Node, Database, is_leader}
use agenda_distribuida.Commit.{recalculate_commit_index}
use agenda_distribuida.Apply.{Applier, apply_committed, Look, wait_for_applied}

abbrev pub Broadcast : Type 0
Broadcast = ℕ → List LogEntry → ℕ → Node → Bool × Node

-- A broadcast without a majority is tried again, `attempts` times in all; then the loop just ends.
unfoldable pub broadcast_retrying : Broadcast → ℕ → LogEntry → Node → Node
broadcast_retrying broadcast zero entry n = n
broadcast_retrying broadcast (suc attempts) entry n =
    let (reached, n') = broadcast entry.term (entry ∷ []) n.commit_index n in
    elim reached [ true ↦ n' | false ↦ broadcast_retrying broadcast attempts entry n' ]

module _ {S : Type 0} (applier : Option (Applier S)) (broadcast : Broadcast) (db : Database) where
  -- An error of applyCommitted is logged and dropped.
  unfoldable pub replicate_and_commit : LogEntry → Node → S → Option String × Node × S
  replicate_and_commit entry n s = elim (db.append_error entry) [
    | some e ↦ (some e, n, s)
    | none ↦
        let appended : Node = record n { raft_log = append_log entry n.raft_log } in
        let sent : Node = broadcast_retrying broadcast 5 entry appended in
        let (err, n', s') = apply_committed applier db (recalculate_commit_index db sent) s in
        (none, n', s')
  ]

  -- The wait has no answer while no look gives one; the caller is then still waiting, which the
  -- message below stands for.
  unfoldable pub await : LogEntry → List Look → Option String × Node × S → Option String × Node × S
  await entry looks (some e, n, s) = (some e, n, s)
  await entry looks (none, n, s) = elim (wait_for_applied entry.index looks) [
    | none ↦ (some "still waiting", n, s)
    | some r ↦ (r, n, s)
  ]

  abbrev pub numbered_entry : LogEntry → Node → LogEntry
  numbered_entry entry n = record entry { term = n.current_term; index = next_index n.raft_log }

  unfoldable pub propose : LogEntry → List Look → Node → S → Option String × Node × S
  unfolding await
  propose entry looks n s =
      if not (is_leader n.role) then (some "not leader", n, s) else elim n.apply_err [
        | some e ↦ (some "node has unapplied committed entries (apply error)", n, s)
        | none ↦ elim db.next_error [
          | some e ↦ (some e, n, s)
          | none ↦
              await (numbered_entry entry n) looks
                (replicate_and_commit (numbered_entry entry n) n s)
        ]
      ]
