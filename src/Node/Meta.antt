-- ===== src/Node/Meta.antt =====
-- What a node finds again in raft_meta.
use agenda_distribuida.Prelude.{ℕ, ◌≤◌, String, ◌≡◌, none, [], ◌∷◌, Table, insert, arith}
use agenda_distribuida.Messages.{RaftState}
use agenda_distribuida.Decimal.{max_int64, fmt_int}
use agenda_distribuida.Decimal.RoundTrip.{parse-fmt_int}
use agenda_distribuida.Node.{
  Node, Database, load_state, persist_meta, persist_meta_string, set_current_term, set_voted_for,
  set_commit_index, set_last_applied,
}

-- The rows of raft_meta that say what `st` says; `migrate` makes those of the zero state.
abbrev pub meta_of : RaftState → Table String
meta_of st =
    ("currentTerm", fmt_int st.current_term)
    ∷ ("votedFor", st.voted_for)
    ∷ ("commitIndex", fmt_int st.commit_index)
    ∷ ("lastApplied", fmt_int st.last_applied)
    ∷ []

-- The database says what the memory says.
abbrev pub IsPersisted : Node → Type 0
IsPersisted n = n.raft_meta ≡ meta_of n.state

pub record FitsInt64 (st : RaftState) : Type 0 where
  pub term_fits : st.current_term ≤ max_int64
  pub commit_fits : st.commit_index ≤ max_int64
  pub applied_fits : st.last_applied ≤ max_int64

-- Loading the rows written for a state gives the state back.
pub load_state-meta_of : (st : RaftState) → FitsInt64 st → load_state (meta_of st) ≡ st
unfolding load_state
load_state-meta_of st f = ground (
  arith,
  parse-fmt_int st.current_term 0 f.term_fits,
  parse-fmt_int st.commit_index 0 f.commit_fits,
  parse-fmt_int st.last_applied 0 f.applied_fits,
)

-- No write to raft_meta fails.
abbrev pub MetaWorks : Database → Type 0
MetaWorks db = (k : String) → db.meta_error k ≡ none

module _ (db : Database) (works : MetaWorks db) (n : Node) (kept : IsPersisted n) where
  pub set_current_term-IsPersisted : (t : ℕ) → IsPersisted (set_current_term db t n)
  unfolding set_current_term persist_meta persist_meta_string insert
  set_current_term-IsPersisted t = ground (arith, works "currentTerm")

  pub set_voted_for-IsPersisted : (id : String) → IsPersisted (set_voted_for db id n)
  unfolding set_voted_for persist_meta_string insert
  set_voted_for-IsPersisted id = ground (arith, works "votedFor")

  pub set_commit_index-IsPersisted : (i : ℕ) → IsPersisted (set_commit_index db i n)
  unfolding set_commit_index persist_meta persist_meta_string insert
  set_commit_index-IsPersisted i = ground (arith, works "commitIndex")

  pub set_last_applied-IsPersisted : (i : ℕ) → IsPersisted (set_last_applied db i n)
  unfolding set_last_applied persist_meta persist_meta_string insert
  set_last_applied-IsPersisted i = ground (arith, works "lastApplied")
