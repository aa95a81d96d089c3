-- ===== src/Propose/Appended.antt =====
-- What a proposal does to the leader's log.
use agenda_distribuida.Prelude.{ℕ, ◌≡◌, ◌≢◌, ◌⊎◌, String, Option, none, List}
use agenda_distribuida.Messages.{LogEntry}
use agenda_distribuida.RaftLog.{append_log}
use agenda_distribuida.RaftLog.Numbered.{Numbered}
use agenda_distribuida.Node.{Node, Database}
use agenda_distribuida.Apply.{Applier, Look}
use agenda_distribuida.Propose.{Broadcast, numbered_entry}

-- Sending to the peers leaves the leader's own log alone.
abbrev pub KeepsLog : Broadcast → Type 0
KeepsLog broadcast =
    (term : ℕ) (entries : List LogEntry) (commit : ℕ) (n : Node)
    → (broadcast term entries commit n).1.raft_log ≡ n.raft_log

-- The log is as it was, and there is an error, or it is the longer one.
abbrev Appends : {S : Type 0} → List LogEntry → List LogEntry → Option String × Node × S → Type 0
Appends old longer r = ((r.1.raft_log ≡ old) × (r.0 ≢ none)) ⊎ (r.1.raft_log ≡ longer)

module _ {S : Type 0} (applier : Option (Applier S)) (broadcast : Broadcast) (db : Database)
    (keeps : KeepsLog broadcast) (entry : LogEntry) (looks : List Look) (n : Node) (s : S) where
  abbrev next_log : List LogEntry
  next_log = append_log (numbered_entry applier broadcast db entry n) n.raft_log
