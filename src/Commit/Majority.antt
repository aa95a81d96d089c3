-- ===== src/Commit/Majority.antt =====
-- The commit index that a leader computes is the largest that a majority holds.
use agenda_distribuida.Prelude.{
  ℕ, suc, ◌+◌, ◌-◌, ◌≤◌, ◌<◌, ◌≡◌, ◌≢◌, ◌⊎◌, inl, inr, refl, ap, true, false, not, String, none,
  some, List, [], ◌∷◌, map, keep, length, arith, str_eq, ltb, Bool-cases, ◌∙◌, if◌then◌else◌,
}
use agenda_distribuida.RaftLog.{last_index_term}
use agenda_distribuida.Peers.{list_peers}
use agenda_distribuida.Node.{Node, Database, leader, set_commit_index}
use agenda_distribuida.Commit.{
  active_peers, counts_as_peer, majority_of, match_indexes, match_of, sort, nth, majority_index,
  advance_commit, recalculate_from, recalculate_commit_index,
}
use agenda_distribuida.Commit.Sorting.{
  at_least, sort-Sorted, at_least-sort, length-sort, nth_enough, nth_most, nth_inside,
}

-- The largest value that at least `m` members reach.
pub record IsLargestHeld (m c : ℕ) (idxs : List ℕ) : Type 0 where
  pub held : m ≤ at_least c idxs
  pub largest : (v : ℕ) → m ≤ at_least v idxs → v ≤ c

nth-IsLargestHeld :
    (m c : ℕ) (idxs : List ℕ)
    → m ≤ length idxs
    → nth (sort idxs) (length idxs - m) ≡ some c
    → IsLargestHeld m c idxs
nth-IsLargestHeld m c idxs fits h = record {
  held = omega (
    arith,
    nth_enough c (length idxs - m) (sort idxs) (sort-Sorted idxs) h,
    at_least-sort c idxs,
    length-sort idxs,
  );
  largest = λ v reached. not_above v reached (Bool-cases (ltb c v));
}
  where
    not_above : (v : ℕ) → m ≤ at_least v idxs → (ltb c v ≡ true) ⊎ (ltb c v ≡ false) → v ≤ c
    not_above v reached (inr e) = ground arith
    not_above v reached (inl e) = absurd (
        omega (
          arith,
          nth_most c v (length idxs - m) (sort idxs) (sort-Sorted idxs) h (ground arith),
          at_least-sort v idxs,
          length-sort idxs,
        ))

-- With one index for each node there is always a majority index.
majority_index_found :
    (total : ℕ) (idxs : List ℕ)
    → length idxs ≡ total
    → 0 < total
    → (c : ℕ) × (majority_index total idxs ≡ some c) × IsLargestHeld (majority_of total) c idxs
unfolding majority_index
majority_index_found total idxs same pos =
    let (c, found) =
      nth_inside (length idxs - majority_of total) (sort idxs) (omega (arith, length-sort idxs)) in
    (c, ground (arith, found), nth-IsLargestHeld (majority_of total) c idxs (omega arith) found)

length-map {ℓ κ} :
    {A : Type ℓ} {B : Type κ} (f : A → B) (xs : List A) → length (map f xs) ≡ length xs
length-map f [] = refl
length-map f (x ∷ xs) = ap suc (length-map f xs)

-- The active peers do not hold the node itself, so the loop's own test drops none.
keep_others :
    (n : Node) (ids : List String)
    → length (keep (λ id. not (str_eq id n.node_id)) (keep (counts_as_peer n) ids))
      ≡ length (keep (counts_as_peer n) ids)
keep_others n [] = refl
keep_others n (id ∷ ids) = ground (arith, keep_others n ids)

pub length-match_indexes :
    (last : ℕ) (n : Node) → length (match_indexes last n) ≡ length (active_peers n) + 1
unfolding match_indexes active_peers
length-match_indexes last n = omega (
  arith,
  length-map (match_of n)
      (keep (λ id. not (str_eq id n.node_id)) (keep (counts_as_peer n) (list_peers n.peers))),
  keep_others n (list_peers n.peers),
)

advance_from :
    (db : Database) (last c : ℕ) (n : Node)
    → majority_index (length (active_peers n) + 1) (match_indexes last n) ≡ some c
    → (recalculate_from db last n).commit_index
      ≡ (if ltb n.commit_index c then c else n.commit_index)
unfolding recalculate_from advance_commit set_commit_index
advance_from db last c n found = ground arith

recalculate_is_from :
    (db : Database) (n : Node)
    → n.role ≡ leader
    → db.last_error ≡ none
    → (last_index_term n.raft_log).0 ≢ 0
    → recalculate_commit_index db n ≡ recalculate_from db (last_index_term n.raft_log).0 n
unfolding recalculate_commit_index
recalculate_is_from db n leads ok filled = ground arith

-- On a leader with a log that is not empty, recomputing never takes the commit index back, moves it
-- only to an index that a majority of the nodes (itself and its active peers) is known to hold, and
-- leaves no larger index that a majority holds, the database answering.
pub commit_is_majority :
    (db : Database) (n : Node)
    → n.role ≡ leader
    → db.last_error ≡ none
    → (last_index_term n.raft_log).0 ≢ 0
    → let idxs = match_indexes (last_index_term n.raft_log).0 n in
      let needed = majority_of (length (active_peers n) + 1) in
      let c = (recalculate_commit_index db n).commit_index in
      (n.commit_index ≤ c)
      × ((c ≡ n.commit_index) ⊎ (needed ≤ at_least c idxs))
      × ((v : ℕ) → needed ≤ at_least v idxs → v ≤ c)
commit_is_majority db n leads ok filled =
    let last = (last_index_term n.raft_log).0 in
    let (c, found, best) =
      majority_index_found (length (active_peers n) + 1) (match_indexes last n)
        (length-match_indexes last n) (omega arith) in
    let new =
      ap (λ (m : Node). m.commit_index) (recalculate_is_from db n leads ok filled)
      ∙ advance_from db last c n found in
    (
      ground (arith, new),
      moved c last new best (Bool-cases (ltb n.commit_index c)),
      λ v reached. ground (arith, new, best.largest v reached),
    )
  where
    moved :
        (c last : ℕ)
        → (recalculate_commit_index db n).commit_index
          ≡ (if ltb n.commit_index c then c else n.commit_index)
        → IsLargestHeld (majority_of (length (active_peers n) + 1)) c (match_indexes last n)
        → (ltb n.commit_index c ≡ true) ⊎ (ltb n.commit_index c ≡ false)
        → ((recalculate_commit_index db n).commit_index ≡ n.commit_index)
          ⊎ (majority_of (length (active_peers n) + 1)
              ≤ at_least (recalculate_commit_index db n).commit_index (match_indexes last n))
    moved c last new best (inl up) = inr (rw (new, up) best.held)
    moved c last new best (inr same) = inl (rw (new, same) refl)
