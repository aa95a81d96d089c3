-- ===== src/Node.antt =====
-- The state of ConsensusImpl (consensus.go) with the tables of its database that it uses, and the
-- helpers that keep raft_meta.
-- A method runs under the lock `mu` from its first to its last access of the state where it does so
-- in the source; each such stretch is one function of the state here. Logging and auditing change
-- nothing that a method reads and are left out.
pub mod Meta
use agenda_distribuida.Prelude.{
  ℕ, Bool, true, false, String, Option, none, some, List, [], ◌∷◌, Table, insert, str_eq, ◌==◌,
  if◌then◌else◌,
}
use agenda_distribuida.Messages.{LogEntry, RaftState}
use agenda_distribuida.Decimal.{fmt_int, parse_int64_default}
use agenda_distribuida.Peers.{EnvPeerStore}

pub data Role : Type 0 where
  follower candidate leader : Role

abbrev pub is_leader : Role → Bool
is_leader leader = true
is_leader follower = false
is_leader candidate = false

-- `applied_events` is the table raft_applied; `reset_pending` says whether the channel
-- resetElectionTimer, of capacity one, holds a token.
pub record Node : Type 0 where
  pub node_id : String
  pub role : Role
  pub state : RaftState
  pub open state use *
  pub raft_log : List LogEntry
  pub raft_meta : Table String
  pub applied_events : Table ℕ
  pub peers : EnvPeerStore
  pub heartbeat_failures : ℕ
  pub failed_elections : ℕ
  pub reset_pending : Bool
  pub next_idx : Table ℕ
  pub match_idx : Table ℕ
  pub apply_err : Option String
  pub apply_err_index : ℕ

-- What the database answers to the calls of one method: the error of a call that fails. SQLite is
-- not part of the program, so any call may fail.
pub record Database : Type 0 where
  pub query_error : ℕ → Option String
  pub truncate_error : ℕ → Option String
  pub append_error : LogEntry → Option String
  pub last_error : Option String
  pub meta_error : String → Option String
  pub next_error : Option String
  pub rows_error : Option String
  pub applied_error : String → Option String
  pub record_error : String → Option String

abbrev pub healthy : Database
healthy = record {
  query_error = λ i. none;
  truncate_error = λ i. none;
  append_error = λ e. none;
  last_error = none;
  meta_error = λ k. none;
  next_error = none;
  rows_error = none;
  applied_error = λ id. none;
  record_error = λ id. none;
}

-- Every caller drops the error of persistMeta; a write that fails leaves the old row.
unfoldable pub persist_meta_string : Database → String → String → Table String → Table String
persist_meta_string db key val meta = elim (db.meta_error key) [
  | none ↦ insert key val meta
  | some e ↦ meta
]

unfoldable pub persist_meta : Database → String → ℕ → Table String → Table String
persist_meta db key val meta = persist_meta_string db key (fmt_int val) meta

-- The loop of loadState over the rows of raft_meta.
load_rows : Table String → RaftState → RaftState
load_rows [] st = st
load_rows ((k, v) ∷ rows) st = load_rows rows (
    if str_eq k "currentTerm"
    then record st { current_term = parse_int64_default v 0 }
    else if str_eq k "votedFor"
    then record st { voted_for = v }
    else if str_eq k "commitIndex"
    then record st { commit_index = parse_int64_default v 0 }
    else if str_eq k "lastApplied"
    then record st { last_applied = parse_int64_default v 0 }
    else st)

abbrev pub zero_state : RaftState
zero_state = record { current_term = 0; voted_for = ""; commit_index = 0; last_applied = 0 }

unfoldable pub load_state : Table String → RaftState
unfolding load_rows
load_state meta = load_rows meta zero_state

-- A counter is set in memory and its row is written in the same stretch.
unfoldable pub set_current_term : Database → ℕ → Node → Node
set_current_term db term n = record n {
  state = record n.state { current_term = term };
  raft_meta = persist_meta db "currentTerm" term n.raft_meta;
}

unfoldable pub set_voted_for : Database → String → Node → Node
set_voted_for db id n = record n {
  state = record n.state { voted_for = id };
  raft_meta = persist_meta_string db "votedFor" id n.raft_meta;
}

unfoldable pub set_commit_index : Database → ℕ → Node → Node
set_commit_index db i n = record n {
  state = record n.state { commit_index = i };
  raft_meta = persist_meta db "commitIndex" i n.raft_meta;
}

unfoldable pub set_last_applied : Database → ℕ → Node → Node
set_last_applied db i n = record n {
  state = record n.state { last_applied = i };
  raft_meta = persist_meta db "lastApplied" i n.raft_meta;
}

-- What RPC handlers and an applying node return beside the state: a value and Go's `error`.
abbrev pub Reply {ℓ} : Type ℓ → Type ℓ
Reply A = A × Option String
