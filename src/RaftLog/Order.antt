-- ===== src/RaftLog/Order.antt =====
-- Logs in the order of their indexes.
use agenda_distribuida.Prelude.{ℕ, suc, ◌≤◌, ◌<◌, ◌≡◌, refl, List, [], ◌∷◌, ◌++◌, All, arith}
use agenda_distribuida.Messages.{LogEntry}
use agenda_distribuida.RaftLog.{
  drop_conflicts, insert_row, append_log, below, truncate_log_from, max_index, next_index,
}

-- The indexes rise strictly along the rows, and all lie above `lo`.
abbrev pub Ascending : ℕ → List LogEntry → Type 0
Ascending lo [] = Unit {0}
Ascending lo (r ∷ rs) = (lo < r.index) × Ascending r.index rs

-- All rows have an index under the bound.
abbrev pub Under : ℕ → List LogEntry → Type 0
Under i = All (λ r. r.index < i)

pub Ascending-mono : (a b : ℕ) (rs : List LogEntry) → a ≤ b → Ascending b rs → Ascending a rs
Ascending-mono a b [] h asc = tt
Ascending-mono a b (r ∷ rs) h asc = (omega arith, asc.1)

pub Under-mono : (a b : ℕ) (rs : List LogEntry) → a ≤ b → Under a rs → Under b rs
Under-mono a b [] h u = tt
Under-mono a b (r ∷ rs) h u = (omega arith, Under-mono a b rs h u.1)

drop_conflicts-Ascending :
    (e : LogEntry) (lo : ℕ) (rs : List LogEntry)
    → Ascending lo rs
    → Ascending lo (drop_conflicts e rs)
unfolding drop_conflicts
drop_conflicts-Ascending e lo [] asc = tt
drop_conflicts-Ascending e lo (r ∷ rs) asc = ground (
  arith,
  drop_conflicts-Ascending e r.index rs asc.1,
  Ascending-mono lo r.index (drop_conflicts e rs),
)

drop_conflicts-Under :
    (e : LogEntry) (i : ℕ) (rs : List LogEntry) → Under i rs → Under i (drop_conflicts e rs)
unfolding drop_conflicts
drop_conflicts-Under e i [] u = tt
drop_conflicts-Under e i (r ∷ rs) u = ground (arith, drop_conflicts-Under e i rs u.1)

pub below-Ascending : (i lo : ℕ) (rs : List LogEntry) → Ascending lo rs → Ascending lo (below i rs)
unfolding below
below-Ascending i lo [] asc = tt
below-Ascending i lo (r ∷ rs) asc =
    ground (arith, below-Ascending i r.index rs asc.1, Ascending-mono lo r.index (below i rs))

pub below-Under : (i : ℕ) (rs : List LogEntry) → Under i (below i rs)
unfolding below
below-Under i [] = tt
below-Under i (r ∷ rs) = ground (arith, below-Under i rs)

pub below_all : (i : ℕ) (rs : List LogEntry) → Under i rs → below i rs ≡ rs
unfolding below
below_all i [] u = refl
below_all i (r ∷ rs) u = ground (arith, below_all i rs u.1)

insert_row-Ascending :
    (e : LogEntry) (lo : ℕ) (rs : List LogEntry)
    → lo < e.index
    → Under e.index rs
    → Ascending lo rs
    → Ascending lo (insert_row e rs)
unfolding insert_row
insert_row-Ascending e lo [] h u asc = (h, tt)
insert_row-Ascending e lo (r ∷ rs) h u asc =
    ground (arith, insert_row-Ascending e r.index rs u.0 u.1 asc.1)

pub insert_row_last :
    (e : LogEntry) (rs : List LogEntry) → Under e.index rs → insert_row e rs ≡ rs ++ e ∷ []
unfolding insert_row
insert_row_last e [] u = refl
insert_row_last e (r ∷ rs) u = ground (arith, insert_row_last e rs u.1)

-- A row past the end keeps the order, whatever rows its event id replaces.
pub append_log-Ascending :
    (e : LogEntry) (lo : ℕ) (rs : List LogEntry)
    → lo < e.index
    → Under e.index rs
    → Ascending lo rs
    → Ascending lo (append_log e rs)
unfolding append_log
append_log-Ascending e lo rs h u asc =
    insert_row-Ascending e lo (drop_conflicts e rs) h (drop_conflicts-Under e e.index rs u)
      (drop_conflicts-Ascending e lo rs asc)

-- What a follower does with one received entry: cut the log at its index, then add it.
pub cut_append-Ascending :
    (e : LogEntry) (rs : List LogEntry)
    → 0 < e.index
    → Ascending 0 rs
    → Ascending 0 (append_log e (truncate_log_from e.index rs))
unfolding truncate_log_from
cut_append-Ascending e rs pos asc = ground (
  arith,
  append_log-Ascending e 0 (below e.index rs) pos (below-Under e.index rs)
      (below-Ascending e.index 0 rs asc),
)

max_index-Under : (rs : List LogEntry) → Under (suc (max_index rs)) rs
unfolding max_index
max_index-Under [] = tt
max_index-Under (r ∷ rs) =
    let ih = max_index-Under rs in
    ground (arith, ih, Under-mono (suc (max_index rs)) (suc r.index) rs)

-- What a leader does with a proposed entry: number it past the end and add it.
pub propose-Ascending :
    (e : LogEntry) (rs : List LogEntry)
    → e.index ≡ next_index rs
    → Ascending 0 rs
    → Ascending 0 (append_log e rs)
unfolding next_index
propose-Ascending e rs at_end asc =
    append_log-Ascending e 0 rs (omega arith)
      (Under-mono (suc (max_index rs)) e.index rs (omega arith) (max_index-Under rs)) asc
