-- ===== src/Recovery.antt =====
-- What a node that stops finds again in raft_meta (consensus.go).
use agenda_distribuida.Prelude.{
  ℕ, ◌≡◌, refl, String, Option, List, [], ◌∷◌, All, arith, ◌-◌, ap, ◌∙◌, ltb, Bool-cases, inl, inr,
  ◌⊎◌,
}
use agenda_distribuida.Messages.{LogEntry, AppendEntriesRequest, RequestVoteRequest}
use agenda_distribuida.Node.{Node, Database, load_state, set_voted_for, set_current_term}
use agenda_distribuida.Node.Meta.{
  IsPersisted, MetaWorks, FitsInt64, load_state-meta_of, set_current_term-IsPersisted,
  set_voted_for-IsPersisted, set_commit_index-IsPersisted, set_last_applied-IsPersisted,
}
use agenda_distribuida.AppendEntries.{
  observe_leader, reset_timer, reject_prev, cut_log, retreat_applied, retreat_commit, learn_commit,
  accept_entries, check_prev, handle_append_entries, Stored, stored, refused, store_entries,
}
use agenda_distribuida.RequestVote.{
  answer_pre_vote, observe_candidate, decide_vote, handle_request_vote,
}
use agenda_distribuida.RequestVote.Safety.{Incoming, appends, asks, deliver}
use agenda_distribuida.Election.{deliver_all}

Stored-cases :
    (r : Stored)
    → ((rows : List LogEntry) × (last : ℕ) × (r ≡ stored rows last))
      ⊎ ((rows : List LogEntry) × (last : ℕ) × (err : Option String) × (r ≡ refused rows last err))
Stored-cases (stored rows last) = inl (rows, last, refl)
Stored-cases (refused rows last err) = inr (rows, last, err, refl)

module _ (db : Database) (works : MetaWorks db) (n : Node) (kept : IsPersisted n) where
  greeted-IsPersisted :
      (req : AppendEntriesRequest) → IsPersisted (reset_timer req (observe_leader db req n))
  unfolding reset_timer observe_leader
  greeted-IsPersisted req = ground (arith, set_current_term-IsPersisted db works n kept req.term)

  learn_commit-IsPersisted : (i : ℕ) → IsPersisted (learn_commit db i n)
  unfolding learn_commit
  learn_commit-IsPersisted i = ground (arith, set_commit_index-IsPersisted db works n kept i)

  set_vote-IsPersisted : (req : RequestVoteRequest) → IsPersisted (decide_vote db req n).1
  unfolding decide_vote
  set_vote-IsPersisted req =
      ground (arith, set_voted_for-IsPersisted db works n kept req.candidate_id)

  observe_candidate-IsPersisted :
      (req : RequestVoteRequest) → IsPersisted (observe_candidate db req n)
  unfolding observe_candidate
  observe_candidate-IsPersisted req =
      let freed : IsPersisted (set_voted_for db "" (set_current_term db req.term n)) =
        set_voted_for-IsPersisted db works (set_current_term db req.term n)
          (set_current_term-IsPersisted db works n kept req.term) "" in
      elim (Bool-cases (ltb n.current_term req.term)) [
        | inl newer ↦ rw newer freed
        | inr same ↦ rw same kept
      ]

  cut_log-IsPersisted : (prev : ℕ) → IsPersisted (cut_log db prev n)
  unfolding cut_log
  cut_log-IsPersisted prev = ground arith

  retreat_applied-IsPersisted : (prev : ℕ) → IsPersisted (retreat_applied db prev n)
  unfolding retreat_applied
  retreat_applied-IsPersisted prev =
      ground (arith, set_last_applied-IsPersisted db works n kept (prev - 1))

  retreat_commit-IsPersisted : (prev : ℕ) → IsPersisted (retreat_commit db prev n)
  unfolding retreat_commit
  retreat_commit-IsPersisted prev =
      ground (arith, set_commit_index-IsPersisted db works n kept (prev - 1))

reject_prev-IsPersisted :
    (db : Database) (works : MetaWorks db) (n : Node) (kept : IsPersisted n) (prev : ℕ)
    → IsPersisted (reject_prev db prev n)
unfolding reject_prev
reject_prev-IsPersisted db works n kept prev =
    retreat_commit-IsPersisted db works (retreat_applied db prev (cut_log db prev n))
      (retreat_applied-IsPersisted db works (cut_log db prev n)
        (cut_log-IsPersisted db works n kept prev) prev)
      prev

module _ (db : Database) (works : MetaWorks db) (n : Node) (kept : IsPersisted n) where
  accept_entries-IsPersisted :
      (req : AppendEntriesRequest) → IsPersisted (accept_entries db req n).1
  unfolding accept_entries
  accept_entries-IsPersisted req =
      elim (Stored-cases (store_entries db req.entries req.prev_log_index n.raft_log)) [
        | inl (rows, last, e) ↦
            rw (e, accept_entries)
              (learn_commit-IsPersisted db works (record n { raft_log = rows }) kept
                req.leader_commit)
        | inr (rows, last, err, e) ↦ rw (e, accept_entries) kept
      ]

  handle_request_vote-IsPersisted :
      (req : RequestVoteRequest) → IsPersisted (handle_request_vote db req n).1
  unfolding handle_request_vote answer_pre_vote
  handle_request_vote-IsPersisted req = ground (
    arith,
    set_vote-IsPersisted db works (observe_candidate db req n)
        (observe_candidate-IsPersisted db works n kept req) req,
  )

check_prev-IsPersisted :
    (db : Database) (works : MetaWorks db) (n : Node) (kept : IsPersisted n)
    (req : AppendEntriesRequest)
    → IsPersisted (check_prev db req n).1
unfolding check_prev
check_prev-IsPersisted db works n kept req = ground (
  arith,
  accept_entries-IsPersisted db works n kept req,
  reject_prev-IsPersisted db works n kept req.prev_log_index,
)

handle_append_entries-IsPersisted :
    (db : Database) (works : MetaWorks db) (n : Node) (kept : IsPersisted n)
    (req : AppendEntriesRequest)
    → IsPersisted (handle_append_entries db req n).1
unfolding handle_append_entries
handle_append_entries-IsPersisted db works n kept req =
    let met = greeted-IsPersisted db works n kept req in
    ground (
      arith,
      accept_entries-IsPersisted db works (reset_timer req (observe_leader db req n)) met req,
      check_prev-IsPersisted db works (reset_timer req (observe_leader db req n)) met req,
    )

abbrev pub WritesMeta : Incoming → Type 0
WritesMeta (appends db req) = MetaWorks db
WritesMeta (asks db req) = MetaWorks db

deliver-IsPersisted :
    (m : Incoming) (n : Node) → WritesMeta m → IsPersisted n → IsPersisted (deliver m n)
unfolding deliver
deliver-IsPersisted (appends db req) n works kept =
    handle_append_entries-IsPersisted db works n kept req
deliver-IsPersisted (asks db req) n works kept = handle_request_vote-IsPersisted db works n kept req

deliver_all-IsPersisted :
    (ms : List Incoming) (n : Node)
    → All WritesMeta ms
    → IsPersisted n
    → IsPersisted (deliver_all ms n)
unfolding deliver_all
deliver_all-IsPersisted [] n works kept = kept
deliver_all-IsPersisted (m ∷ ms) n works kept =
    deliver_all-IsPersisted ms (deliver m n) works.1 (deliver-IsPersisted m n works.0 kept)

-- Whatever requests a node has handled, loadState reads from raft_meta the very state that it had in
-- memory: term, vote, commit index and last applied index. It started with raft_meta saying what its
-- memory said, no write to raft_meta failed, and its counters are below 2^63.
pub restart_recovers :
    (ms : List Incoming) (n : Node)
    → All WritesMeta ms
    → IsPersisted n
    → FitsInt64 (deliver_all ms n).state
    → load_state (deliver_all ms n).raft_meta ≡ (deliver_all ms n).state
restart_recovers ms n works kept fits =
    ap load_state (deliver_all-IsPersisted ms n works kept)
    ∙ load_state-meta_of (deliver_all ms n).state fits
