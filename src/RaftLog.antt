-- ===== src/RaftLog.antt =====
-- The table raft_log (storage.go) and the queries of consensus.go on it.
-- A table is the list of its rows as the index raft_log_idx holds them: by `idx`, and rows of one
-- `idx` in the order of their insertion. A failure of SQLite itself is the callers' to model.
pub mod Order
pub mod Numbered
use agenda_distribuida.Prelude.{
  ℕ, suc, ◌+◌, Bool, ◌&&◌, ◌||◌, List, [], ◌∷◌, Option, none, some, leb, ltb, ◌==◌, str_eq, keep,
  if◌then◌else◌,
}
use agenda_distribuida.Messages.{LogEntry}

-- `INSERT OR REPLACE` drops the rows that meet the new one in PRIMARY KEY(term, idx) or in the
-- UNIQUE event_id, and adds the new row.
abbrev pub conflicts : LogEntry → LogEntry → Bool
conflicts e r = (r.term == e.term && r.index == e.index) || str_eq r.event_id e.event_id

unfoldable pub drop_conflicts : LogEntry → List LogEntry → List LogEntry
drop_conflicts e [] = []
drop_conflicts e (r ∷ rs) = if conflicts e r then drop_conflicts e rs else r ∷ drop_conflicts e rs

unfoldable pub insert_row : LogEntry → List LogEntry → List LogEntry
insert_row e [] = e ∷ []
insert_row e (r ∷ rs) = if leb r.index e.index then r ∷ insert_row e rs else e ∷ r ∷ rs

unfoldable pub append_log : LogEntry → List LogEntry → List LogEntry
append_log e rows = insert_row e (drop_conflicts e rows)

-- `DELETE FROM raft_log WHERE idx >= ?`
unfoldable pub below : ℕ → List LogEntry → List LogEntry
below idx = keep (λ r. ltb r.index idx)

unfoldable pub truncate_log_from : ℕ → List LogEntry → List LogEntry
truncate_log_from idx rows = if idx == 0 then rows else below idx rows

-- `SELECT term FROM raft_log WHERE idx=?`: the first row is read, and no row reads as term 0.
unfoldable pub term_at : ℕ → List LogEntry → ℕ
term_at idx [] = 0
term_at idx (r ∷ rs) = if r.index == idx then r.term else term_at idx rs

unfoldable pub log_term_at : ℕ → List LogEntry → ℕ
log_term_at idx rows = if idx == 0 then 0 else term_at idx rows

-- `SELECT ... WHERE idx>=? ORDER BY idx ASC`
unfoldable pub load_log_entries_from : ℕ → List LogEntry → List LogEntry
load_log_entries_from start = keep (λ r. leb start r.index)

-- `SELECT ... WHERE idx>? AND idx<=? ORDER BY idx ASC`
unfoldable pub load_committed : ℕ → ℕ → List LogEntry → List LogEntry
load_committed applied commit = keep (λ r. ltb applied r.index && leb r.index commit)

-- `SELECT idx, term FROM raft_log ORDER BY idx DESC LIMIT 1`
unfoldable pub last_row : List LogEntry → Option LogEntry
last_row [] = none
last_row (r ∷ rs) = elim (last_row rs) [ none ↦ some r | some e ↦ some e ]

unfoldable pub last_index_term : List LogEntry → ℕ × ℕ
last_index_term rows = elim (last_row rows) [ none ↦ (0, 0) | some e ↦ (e.index, e.term) ]

-- `SELECT COALESCE(MAX(idx),0) FROM raft_log`
unfoldable pub max_index : List LogEntry → ℕ
max_index [] = 0
max_index (r ∷ rs) = if ltb (max_index rs) r.index then r.index else max_index rs

unfoldable pub next_index : List LogEntry → ℕ
next_index rows = max_index rows + 1
