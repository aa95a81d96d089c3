-- ===== src/RequestVote/Safety.antt =====
-- When a vote is granted, and the votes of a term.
use agenda_distribuida.Prelude.{
  ℕ, ◌<◌, ◌≤◌, true, false, not, ◌&&◌, ◌≡◌, ◌≢◌, ◌⊎◌, ◌↔◌, inl, inr, refl, none, List, [], ◌∷◌,
  ◌++◌, All, arith, eq_iff, if◌then◌else◌, String, Bool-cases,
}
use agenda_distribuida.Messages.{AppendEntriesRequest, RequestVoteRequest}
use agenda_distribuida.RaftLog.{last_index_term}
use agenda_distribuida.Node.{Node, Database, set_current_term, set_voted_for}
use agenda_distribuida.AppendEntries.{handle_append_entries}
use agenda_distribuida.AppendEntries.Terms.{append_entries_term}
use agenda_distribuida.RequestVote.{
  answer_pre_vote, observe_candidate, decide_vote, handle_request_vote,
}

-- The candidate's log is at least as good as the node's: a later last term, or the same last term
-- and no shorter.
abbrev pub UpToDate : RequestVoteRequest → Node → Type 0
UpToDate req n =
    let last = last_index_term n.raft_log in
    (last.1 < req.last_log_term) ⊎ ((last.1 ≡ req.last_log_term) × (last.0 ≤ req.last_log_index))

-- The node's vote is not bound to another candidate in the request's term.
abbrev pub IsFreeFor : RequestVoteRequest → Node → Type 0
IsFreeFor req n =
    (n.current_term < req.term) ⊎ (n.voted_for ≡ "") ⊎ (n.voted_for ≡ req.candidate_id)

-- A probe changes nothing. It is answered by yes exactly when its term is not older and the
-- candidate's log is up to date, the database answering.
pub pre_vote_exact :
    (db : Database) (req : RequestVoteRequest) (n : Node)
    → req.pre_vote ≡ true
    → db.last_error ≡ none
    → ((handle_request_vote db req n).1 ≡ n)
      × (((handle_request_vote db req n).0.0.vote_granted ≡ true)
          ↔ ((n.current_term ≤ req.term) × UpToDate req n))
unfolding handle_request_vote answer_pre_vote
pre_vote_exact db req n probe ok = (ground arith, ((λ g. ground arith), (λ g. ground arith)))

decide_vote_grants :
    (db : Database) (req : RequestVoteRequest) (m : Node)
    → db.last_error ≡ none
    → (m.voted_for ≡ "") ⊎ (m.voted_for ≡ req.candidate_id)
    → UpToDate req m
    → (decide_vote db req m).0.0.vote_granted ≡ true
unfolding decide_vote
decide_vote_grants db req m ok free good =
    ground (arith, eq_iff m.voted_for "", eq_iff m.voted_for req.candidate_id)

observe_candidate-IsFreeFor :
    (db : Database) (req : RequestVoteRequest) (n : Node)
    → IsFreeFor req n
    → ((observe_candidate db req n).voted_for ≡ "")
      ⊎ ((observe_candidate db req n).voted_for ≡ req.candidate_id)
unfolding observe_candidate set_voted_for set_current_term
observe_candidate-IsFreeFor db req n free = ground arith

raft_log-observe_candidate :
    (db : Database) (req : RequestVoteRequest) (n : Node)
    → (observe_candidate db req n).raft_log ≡ n.raft_log
unfolding observe_candidate set_voted_for set_current_term
raft_log-observe_candidate db req n = ground arith

vote_given :
    (db : Database) (req : RequestVoteRequest) (n : Node)
    → req.pre_vote ≡ false
    → db.last_error ≡ none
    → n.current_term ≤ req.term
    → IsFreeFor req n
    → UpToDate req n
    → (handle_request_vote db req n).0.0.vote_granted ≡ true
unfolding handle_request_vote
vote_given db req n real ok h free good = ground (
  arith,
  decide_vote_grants db req (observe_candidate db req n) ok
      (observe_candidate-IsFreeFor db req n free) (rw (raft_log-observe_candidate db req n) good),
)

-- A vote is granted exactly when the request's term is not older, the node's vote is free for the
-- candidate in that term, and the candidate's log is up to date, the database answering. A granted
-- vote is recorded, with the term.
pub vote_exact :
    (db : Database) (req : RequestVoteRequest) (n : Node)
    → req.pre_vote ≡ false
    → db.last_error ≡ none
    → (((handle_request_vote db req n).0.0.vote_granted ≡ true)
        ↔ ((n.current_term ≤ req.term) × IsFreeFor req n × UpToDate req n))
      × ((handle_request_vote db req n).0.0.vote_granted ≡ true
          → ((handle_request_vote db req n).1.voted_for ≡ req.candidate_id)
            × ((handle_request_vote db req n).1.current_term ≡ req.term))
unfolding handle_request_vote observe_candidate decide_vote set_voted_for set_current_term
vote_exact db req n real ok = (
  (
    (λ g. ground (arith, eq_iff n.voted_for "", eq_iff n.voted_for req.candidate_id)),
    (λ g. vote_given db req n real ok g.0 g.1 g.2),
  ),
  (λ g. ground (arith, eq_iff n.voted_for "", eq_iff n.voted_for req.candidate_id)),
)

-- The requests that other nodes send, each with what the database answers while it is handled.
pub data Incoming : Type 0 where
  appends : Database → AppendEntriesRequest → Incoming
  asks : Database → RequestVoteRequest → Incoming

unfoldable pub deliver : Incoming → Node → Node
deliver (appends db req) n = (handle_append_entries db req n).1
deliver (asks db req) n = (handle_request_vote db req n).1

-- The vote that a request gets, as its term and candidate.
unfoldable pub ballot : Incoming → Node → List (ℕ × String)
ballot (appends db req) n = []
ballot (asks db req) n =
    if not req.pre_vote && (handle_request_vote db req n).0.0.vote_granted
    then ((handle_request_vote db req n).0.0.term, req.candidate_id) ∷ []
    else []

-- All votes that a row of requests gets, in order.
unfoldable pub ballots : List Incoming → Node → List (ℕ × String)
ballots [] n = []
ballots (m ∷ ms) n = ballot m n ++ ballots ms (deliver m n)

-- A node that gave its vote of term `t` to `a`, or has gone on to a later term.
abbrev Pledged : ℕ → String → Node → Type 0
Pledged t a n = (t ≤ n.current_term) × (n.current_term ≡ t → n.voted_for ≡ a)

abbrev Agree : ℕ → String → List (ℕ × String) → Type 0
Agree t a = All (λ v. v.0 ≡ t → v.1 ≡ a)

abbrev pub OnePerTerm : List (ℕ × String) → Type 0
OnePerTerm [] = Unit {0}
OnePerTerm (v ∷ vs) = Agree v.0 v.1 vs × OnePerTerm vs

-- Every candidate that asks names itself.
abbrev pub NamesItself : Incoming → Type 0
NamesItself (appends db req) = Unit {0}
NamesItself (asks db req) = req.candidate_id ≢ ""

deliver-Pledged :
    (m : Incoming) (t : ℕ) (a : String) (n : Node)
    → a ≢ ""
    → Pledged t a n
    → Pledged t a (deliver m n) × Agree t a (ballot m n)
unfolding deliver ballot handle_request_vote answer_pre_vote observe_candidate decide_vote
    set_voted_for set_current_term
deliver-Pledged (appends db req) t a n named p = ground (arith, append_entries_term db req n)
deliver-Pledged (asks db req) t a n named p = (
  (
    ground (arith, eq_iff n.voted_for "", eq_iff n.voted_for req.candidate_id),
    λ e. ground (arith, eq_iff n.voted_for "", eq_iff n.voted_for req.candidate_id, p.1),
  ),
  ground (arith, eq_iff n.voted_for "", eq_iff n.voted_for req.candidate_id),
)

ballots-Agree :
    (ms : List Incoming) (t : ℕ) (a : String) (n : Node)
    → a ≢ ""
    → Pledged t a n
    → Agree t a (ballots ms n)
unfolding ballots
ballots-Agree [] t a n named p = tt
ballots-Agree (m ∷ ms) t a n named p =
    let kept = deliver-Pledged m t a n named p in
    Agree-append (ballot m n) (ballots ms (deliver m n)) kept.1
      (ballots-Agree ms t a (deliver m n) named kept.0)
  where
    Agree-append : (us vs : List (ℕ × String)) → Agree t a us → Agree t a vs → Agree t a (us ++ vs)
    Agree-append [] vs hu hv = hv
    Agree-append (u ∷ us) vs hu hv = (hu.0, Agree-append us vs hu.1 hv)

granted_facts :
    (db : Database) (req : RequestVoteRequest) (n : Node)
    → req.pre_vote ≡ false
    → (handle_request_vote db req n).0.0.vote_granted ≡ true
    → ((handle_request_vote db req n).1.voted_for ≡ req.candidate_id)
      × ((handle_request_vote db req n).1.current_term ≡ (handle_request_vote db req n).0.0.term)
unfolding handle_request_vote decide_vote set_voted_for
granted_facts db req n real g = ground arith

-- A request that gets a vote leaves the node pledged to it.
ballot-Pledged :
    (m : Incoming) (n : Node)
    → NamesItself m
    → (ballot m n ≡ [])
      ⊎ ((t : ℕ) × (a : String) × (ballot m n ≡ (t, a) ∷ []) × (a ≢ "") × Pledged t a (deliver m n))
unfolding ballot deliver
ballot-Pledged (appends db req) n named = inl refl
ballot-Pledged (asks db req) n named =
    elim (Bool-cases (not req.pre_vote && (handle_request_vote db req n).0.0.vote_granted)) [
      | inr e ↦ inl (rw e refl)
      | inl e ↦
          let facts = granted_facts db req n (ground arith) (ground arith) in
          inr (
            (handle_request_vote db req n).0.0.term,
            req.candidate_id,
            rw e refl,
            named,
            (omega (arith, facts.1), λ x. facts.0),
          )
    ]

-- Whatever requests reach a node, in whatever order and whatever its database answers, two votes
-- that it gives in one term go to one candidate, if every candidate that asks has a name.
pub vote_once_per_term :
    (ms : List Incoming) (n : Node) → All NamesItself ms → OnePerTerm (ballots ms n)
unfolding ballots
vote_once_per_term [] n named = tt
vote_once_per_term (m ∷ ms) n named =
    let rest = vote_once_per_term ms (deliver m n) named.1 in
    elim (ballot-Pledged m n named.0) [
      | inl none_given ↦ rw none_given rest
      | inr (t, a, given, a_named, p) ↦
          rw given (ballots-Agree ms t a (deliver m n) a_named p, rest)
    ]
