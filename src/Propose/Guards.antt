-- ===== src/Propose/Guards.antt =====
-- Who may propose, and what an accepted proposal means.
use agenda_distribuida.Prelude.{◌≡◌, ◌≢◌, ◌⊎◌, false, Option, none, List, arith}
use agenda_distribuida.Messages.{LogEntry}
use agenda_distribuida.RaftLog.{next_index}
use agenda_distribuida.Node.{Node, Database, is_leader, leader}
use agenda_distribuida.Apply.{Applier, Look}
use agenda_distribuida.Apply.Progress.{ShowsApplied, Expires, wait_for_applied_ends}
use agenda_distribuida.Propose.{Broadcast, propose}

-- A node that is no leader, or that has a committed entry it could not apply, turns every proposal
-- away with an error, and neither the node nor its state machine changes.
pub propose_guarded :
    {S : Type 0} (applier : Option (Applier S)) (broadcast : Broadcast) (db : Database)
    (entry : LogEntry) (looks : List Look) (n : Node) (s : S)
    → (is_leader n.role ≡ false) ⊎ (n.apply_err ≢ none)
    → ((propose applier broadcast db entry looks n s).0 ≢ none)
      × ((propose applier broadcast db entry looks n s).1 ≡ n)
      × ((propose applier broadcast db entry looks n s).2 ≡ s)
unfolding propose
propose_guarded applier broadcast db entry looks n s h =
    ((λ x. ground arith), ground arith, ground arith)

-- A proposal that comes back without an error was made to a leader without an apply error, and a
-- look at a leader since then showed the entry's index applied with no error at or before it.
pub proposed_is_applied :
    {S : Type 0} (applier : Option (Applier S)) (broadcast : Broadcast) (db : Database)
    (entry : LogEntry) (looks : List Look) (n : Node) (s : S)
    → Expires looks
    → (propose applier broadcast db entry looks n s).0 ≡ none
    → (n.role ≡ leader) × (n.apply_err ≡ none) × ShowsApplied (next_index n.raft_log) looks
unfolding propose
proposed_is_applied applier broadcast db entry looks n s expires ok =
    let ends = wait_for_applied_ends (next_index n.raft_log) looks expires in
    (ground arith, ground arith, ends.1 (ground arith))
