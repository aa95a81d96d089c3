-- ===== src/AppendEntries/Logs.antt =====
-- The log and the counters across HandleAppendEntries.
use agenda_distribuida.Prelude.{ℕ, ◌<◌, ◌≡◌, List, [], ◌∷◌, All, arith}
use agenda_distribuida.Messages.{LogEntry, AppendEntriesRequest}
use agenda_distribuida.RaftLog.{append_log, truncate_log_from}
use agenda_distribuida.RaftLog.Order.{Ascending, below-Ascending, cut_append-Ascending}
use agenda_distribuida.Node.{Node, Database, set_current_term, set_commit_index, set_last_applied}
use agenda_distribuida.AppendEntries.{
  observe_leader, reset_timer, reject_prev, cut_log, retreat_applied, retreat_commit, Stored,
  store_entries, stored, refused, accept_entries, check_prev, handle_append_entries,
}
use agenda_distribuida.AppendEntries.Terms.{greeted}

abbrev rows_of : Stored → List LogEntry
rows_of (stored rows last) = rows
rows_of (refused rows last err) = rows

abbrev pub PositiveIndexes : List LogEntry → Type 0
PositiveIndexes = All (λ e. 0 < e.index)

truncate_log_from-Ascending :
    (i : ℕ) (rs : List LogEntry) → Ascending 0 rs → Ascending 0 (truncate_log_from i rs)
unfolding truncate_log_from
truncate_log_from-Ascending i rs asc = ground (arith, below-Ascending i 0 rs asc)

store_entries-Ascending :
    (db : Database) (es : List LogEntry) (last : ℕ) (rs : List LogEntry)
    → PositiveIndexes es
    → Ascending 0 rs
    → Ascending 0 (rows_of (store_entries db es last rs))
unfolding store_entries
store_entries-Ascending db [] last rs pos asc = asc
store_entries-Ascending db (e ∷ es) last rs pos asc = ground (
  arith,
  truncate_log_from-Ascending e.index rs asc,
  store_entries-Ascending db es e.index (append_log e (truncate_log_from e.index rs)) pos.1
      (cut_append-Ascending e rs pos.0 asc),
)

-- What the greeting of a leader leaves alone.
pub greeted_keeps :
    (db : Database) (req : AppendEntriesRequest) (n : Node)
    → ((greeted db req n).raft_log ≡ n.raft_log)
      × ((greeted db req n).commit_index ≡ n.commit_index)
      × ((greeted db req n).last_applied ≡ n.last_applied)
      × ((greeted db req n).applied_events ≡ n.applied_events)
unfolding reset_timer observe_leader set_current_term
greeted_keeps db req n = ground arith

reject_prev-Ascending :
    (db : Database) (prev : ℕ) (n : Node)
    → Ascending 0 n.raft_log
    → Ascending 0 (reject_prev db prev n).raft_log
unfolding reject_prev cut_log retreat_applied retreat_commit set_last_applied set_commit_index
reject_prev-Ascending db prev n asc =
    ground (arith, truncate_log_from-Ascending prev n.raft_log asc)

raft_log-accept_entries :
    (db : Database) (req : AppendEntriesRequest) (n : Node)
    → (accept_entries db req n).1.raft_log
      ≡ rows_of (store_entries db req.entries req.prev_log_index n.raft_log)
unfolding accept_entries set_commit_index
raft_log-accept_entries db req n = ground arith

accept_entries-Ascending :
    (db : Database) (req : AppendEntriesRequest) (n : Node)
    → PositiveIndexes req.entries
    → Ascending 0 n.raft_log
    → Ascending 0 (accept_entries db req n).1.raft_log
accept_entries-Ascending db req n pos asc =
    rw (raft_log-accept_entries db req n)
      (store_entries-Ascending db req.entries req.prev_log_index n.raft_log pos asc)

-- A log with one row to an index, in order, stays so under any request whose entries have positive
-- indexes, also when the request is refused or the database fails in the middle of it.
pub append_entries-Ascending :
    (db : Database) (req : AppendEntriesRequest) (n : Node)
    → PositiveIndexes req.entries
    → Ascending 0 n.raft_log
    → Ascending 0 (handle_append_entries db req n).1.raft_log
unfolding handle_append_entries check_prev
append_entries-Ascending db req n pos asc =
    let asc' : Ascending 0 (greeted db req n).raft_log = rw ((greeted_keeps db req n).0) asc in
    ground (
      arith,
      accept_entries-Ascending db req (greeted db req n) pos asc',
      reject_prev-Ascending db req.prev_log_index (greeted db req n) asc',
      asc',
    )
