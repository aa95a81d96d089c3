-- ===== src/Commit.antt =====
-- `recalculateCommitIndex` and `activePeers` of consensus.go: how far a leader's log is committed.
pub mod Sorting
pub mod Majority
use agenda_distribuida.Prelude.{
  ℕ, zero, suc, ◌+◌, ◌-◌, ◌/◌, Bool, not, ◌&&◌, ◌||◌, String, Option, none, some, List, [], ◌∷◌,
  map, keep, length, lookup, ltb, leb, ◌==◌, str_eq, if◌then◌else◌,
}
use agenda_distribuida.RaftLog.{last_index_term}
use agenda_distribuida.Peers.{list_peers}
use agenda_distribuida.Node.{Node, Database, is_leader, set_commit_index}

-- The peers that count: those known, without blank ids and without the node itself. The argument
-- maxStale of the source is not read.
abbrev pub counts_as_peer : Node → String → Bool
counts_as_peer n id = not (str_eq id "" || str_eq id n.node_id || str_eq id "node-unknown")

unfoldable pub active_peers : Node → List String
active_peers n = keep (counts_as_peer n) (list_peers n.peers)

abbrev pub majority_of : ℕ → ℕ
majority_of total = total / 2 + 1

abbrev match_of : Node → String → ℕ
match_of n id = elim (lookup id n.match_idx) [ none ↦ 0 | some v ↦ v ]

-- The leader's own last index and what each peer is known to hold.
unfoldable pub match_indexes : ℕ → Node → List ℕ
match_indexes last n =
    last ∷ map (match_of n) (keep (λ id. not (str_eq id n.node_id)) (active_peers n))

-- sort.Slice on numbers: their order fixes the result.
unfoldable pub insert_sorted : ℕ → List ℕ → List ℕ
insert_sorted x [] = x ∷ []
insert_sorted x (y ∷ ys) = if leb x y then x ∷ y ∷ ys else y ∷ insert_sorted x ys

unfoldable pub sort : List ℕ → List ℕ
sort [] = []
sort (x ∷ xs) = insert_sorted x (sort xs)

unfoldable pub nth : List ℕ → ℕ → Option ℕ
nth [] i = none
nth (x ∷ xs) zero = some x
nth (x ∷ xs) (suc i) = nth xs i

-- The index that a majority holds. `none` stands for the early return, and for an index out of
-- range, which the length test rules out.
unfoldable pub majority_index : ℕ → List ℕ → Option ℕ
majority_index total idxs =
    if length idxs == 0 || ltb (length idxs) (majority_of total)
    then none
    else nth (sort idxs) (length idxs - majority_of total)

unfoldable pub advance_commit : Database → ℕ → Node → Node
advance_commit db candidate n =
    if ltb n.commit_index candidate then set_commit_index db candidate n else n

-- For a leader whose log has the last index `last`.
unfoldable pub recalculate_from : Database → ℕ → Node → Node
recalculate_from db last n =
    elim (majority_index (length (active_peers n) + 1) (match_indexes last n)) [
      | none ↦ n
      | some candidate ↦ advance_commit db candidate n
    ]

unfoldable pub recalculate_commit_index : Database → Node → Node
recalculate_commit_index db n = if not (is_leader n.role) then n else elim db.last_error [
  | some e ↦ n
  | none ↦
      let last = (last_index_term n.raft_log).0 in
      if last == 0 then n else recalculate_from db last n
]
