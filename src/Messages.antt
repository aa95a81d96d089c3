-- ===== src/Messages.antt =====
-- The data of the replicated log and of the requests between nodes: models.go and interfaces.go.
-- Terms and log indexes are int64 counters that start at 0 and are never set below it; they are
-- natural numbers here. Timestamps are the Unix seconds of the entry.
use agenda_distribuida.Prelude.{ℕ, String, Bool, List}

pub record LogEntry : Type 0 where
  pub term : ℕ
  pub index : ℕ
  pub event_id : String
  pub aggregate : String
  pub aggregate_id : String
  pub op : String
  pub payload : String
  pub timestamp : ℕ

pub record RaftState : Type 0 where
  pub current_term : ℕ
  pub voted_for : String
  pub commit_index : ℕ
  pub last_applied : ℕ

pub record AppendEntriesRequest : Type 0 where
  pub term : ℕ
  pub leader_id : String
  pub prev_log_index : ℕ
  pub prev_log_term : ℕ
  pub entries : List LogEntry
  pub leader_commit : ℕ

pub record AppendEntriesResponse : Type 0 where
  pub term : ℕ
  pub success : Bool
  pub match_index : ℕ

pub record RequestVoteRequest : Type 0 where
  pub term : ℕ
  pub candidate_id : String
  pub last_log_index : ℕ
  pub last_log_term : ℕ
  pub pre_vote : Bool

pub record RequestVoteResponse : Type 0 where
  pub term : ℕ
  pub vote_granted : Bool
