-- ===== src/Samples.antt =====
-- A small cluster: the data on which the theorems are tried.
mod Voting
mod Logs
mod Applying
mod Elections
mod Sessions
mod Domain
mod Meetings
mod Services
mod Nodes
mod Requests
mod Reconciling
mod Sockets
mod Answers
use agenda_distribuida.Prelude.{
  ℕ, String, true, false, Option, none, some, List, [], ◌∷◌, ◌≡◌, ◌≢◌, str_eq, eq_iff,
}
use agenda_distribuida.Messages.{LogEntry, AppendEntriesRequest, RequestVoteRequest}
use agenda_distribuida.Peers.{EnvPeerStore}
use agenda_distribuida.Decimal.{fmt_int}
use agenda_distribuida.Node.{Node, follower, leader, zero_state}
use agenda_distribuida.Node.Meta.{meta_of}
use agenda_distribuida.Apply.{Applier, Look}

abbrev pub entry : ℕ → ℕ → String → String → LogEntry
entry term index id op = record {
  term = term;
  index = index;
  event_id = id;
  aggregate = "user";
  aggregate_id = "u";
  op = op;
  payload = "";
  timestamp = 7;
}

abbrev pub first_entry : LogEntry
first_entry = entry 1 1 "ev1" "user.create"

abbrev pub second_entry : LogEntry
second_entry = entry 1 2 "ev2" "group.create"

abbrev pub third_entry : LogEntry
third_entry = entry 2 3 "ev3" "appointment.delete"

abbrev pub old_entry : LogEntry
old_entry = entry 1 2 "ev9" "user.create"

abbrev pub peers_of : String → EnvPeerStore
peers_of own = record { local_id = own; peers = ("b", "b:80") ∷ ("c", "c:80") ∷ []; leader = "" }

-- A node that has just loaded its state of term 1.
abbrev pub fresh_node : String → List LogEntry → Node
fresh_node id rows = record {
  node_id = id;
  role = follower;
  state = record zero_state { current_term = 1 };
  raft_log = rows;
  raft_meta = meta_of (record zero_state { current_term = 1 });
  applied_events = [];
  peers = peers_of id;
  heartbeat_failures = 0;
  failed_elections = 0;
  reset_pending = false;
  next_idx = [];
  match_idx = [];
  apply_err = none;
  apply_err_index = 0;
}

-- Node a leads term 2 with three entries; b holds the first and an entry that a never had.
abbrev pub node_a : Node
node_a = record (fresh_node "a" (first_entry ∷ second_entry ∷ third_entry ∷ [])) {
  role = leader;
  state = record zero_state { current_term = 2; commit_index = 1 };
  next_idx = ("b", 2) ∷ ("c", 4) ∷ [];
  match_idx = ("b", 3) ∷ ("c", 0) ∷ [];
}

abbrev pub node_b : Node
node_b = fresh_node "b" (first_entry ∷ old_entry ∷ [])

-- What a sends to b from index 2 on.
abbrev pub suffix_for_b : AppendEntriesRequest
suffix_for_b = record {
  term = 2;
  leader_id = "a";
  prev_log_index = 1;
  prev_log_term = 1;
  entries = second_entry ∷ third_entry ∷ [];
  leader_commit = 1;
}

abbrev pub ask : String → ℕ → RequestVoteRequest
ask id term = record {
  term = term;
  candidate_id = id;
  last_log_index = 3;
  last_log_term = 2;
  pre_vote = false;
}

-- A state machine that keeps the operations it has seen, the latest first.
abbrev pub recorder : Applier (List String)
recorder e s = (none, e.op ∷ s)

abbrev pub look_at : ℕ → Look
look_at applied = record {
  last_applied = applied;
  role = leader;
  apply_err = none;
  apply_err_index = 0;
  expired = true;
}

pub texts_differ : (s t : String) → str_eq s t ≡ false → s ≢ t
texts_differ s t h e = cc (h, (eq_iff s t).1 e)
