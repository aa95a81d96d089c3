-- ===== src/RaftLog/Numbered.antt =====
-- Logs numbered without gaps, and how a suffix sent by a leader meets a follower's log.
use agenda_distribuida.Prelude.{
  ℕ, suc, ◌+◌, ◌≤◌, ◌≡◌, refl, false, List, [], ◌∷◌, ◌++◌, All, length, arith, str_eq,
}
use agenda_distribuida.Messages.{LogEntry}
use agenda_distribuida.RaftLog.{
  drop_conflicts, append_log, below, max_index, next_index, term_at, log_term_at,
  load_log_entries_from,
}
use agenda_distribuida.RaftLog.Order.{Under, Under-mono, insert_row_last}

-- The rows have the indexes k, k + 1, …
abbrev pub Numbered : ℕ → List LogEntry → Type 0
Numbered k [] = Unit {0}
Numbered k (r ∷ rs) = (r.index ≡ k) × Numbered (suc k) rs

-- No row has this event id.
abbrev pub FreshEvent : LogEntry → List LogEntry → Type 0
FreshEvent e = All (λ r. str_eq r.event_id e.event_id ≡ false)

-- No two rows share an event id, as UNIQUE(event_id) demands.
abbrev pub DistinctEvents : List LogEntry → Type 0
DistinctEvents [] = Unit {0}
DistinctEvents (r ∷ rs) = All (λ s. str_eq r.event_id s.event_id ≡ false) rs × DistinctEvents rs

drop_conflicts_none :
    (e : LogEntry) (rs : List LogEntry)
    → Under e.index rs
    → FreshEvent e rs
    → drop_conflicts e rs ≡ rs
unfolding drop_conflicts
drop_conflicts_none e [] u f = refl
drop_conflicts_none e (r ∷ rs) u f = ground (arith, drop_conflicts_none e rs u.1 f.1)

pub append_log_last :
    (e : LogEntry) (rs : List LogEntry)
    → Under e.index rs
    → FreshEvent e rs
    → append_log e rs ≡ rs ++ e ∷ []
unfolding append_log
append_log_last e rs u f = rw (drop_conflicts_none e rs u f) (insert_row_last e rs u)

pub Numbered-Under :
    (k : ℕ) (pre es : List LogEntry) → Numbered k (pre ++ es) → Under (k + length pre) pre
Numbered-Under k [] es n = tt
Numbered-Under k (r ∷ rs) es n = (
  omega arith,
  Under-mono (suc k + length rs) (k + suc (length rs)) rs (omega arith)
      (Numbered-Under (suc k) rs es n.1),
)

pub Numbered-index :
    (k : ℕ) (pre es : List LogEntry) (e : LogEntry)
    → Numbered k (pre ++ e ∷ es)
    → e.index ≡ k + length pre
Numbered-index k [] es e n = omega arith
Numbered-index k (r ∷ rs) es e n = omega (arith, Numbered-index (suc k) rs es e n.1)

pub FreshEvent-middle :
    (pre es : List LogEntry) (e : LogEntry) → DistinctEvents (pre ++ e ∷ es) → FreshEvent e pre
FreshEvent-middle [] es e d = tt
FreshEvent-middle (r ∷ rs) es e d = (middle rs d.0, FreshEvent-middle rs es e d.1)
  where
    middle :
        (qs : List LogEntry)
        → All (λ s. str_eq r.event_id s.event_id ≡ false) (qs ++ e ∷ es)
        → str_eq r.event_id e.event_id ≡ false
    middle [] a = a.0
    middle (q ∷ qs) a = middle qs a.1

max_index-Numbered :
    (k : ℕ) (r : LogEntry) (rs : List LogEntry)
    → Numbered k (r ∷ rs)
    → max_index (r ∷ rs) ≡ k + length rs
unfolding max_index
max_index-Numbered k r [] n = ground arith
max_index-Numbered k r (s ∷ rs) n = ground (arith, max_index-Numbered (suc k) s rs n.1)

pub max_index-length : (rs : List LogEntry) → Numbered 1 rs → max_index rs ≡ length rs
unfolding max_index
max_index-length [] n = refl
max_index-length (r ∷ rs) n = omega (arith, max_index-Numbered 1 r rs n)

Numbered-snoc :
    (k : ℕ) (rs : List LogEntry) (e : LogEntry)
    → Numbered k rs
    → e.index ≡ k + length rs
    → Numbered k (rs ++ e ∷ [])
Numbered-snoc k [] e n h = (omega arith, tt)
Numbered-snoc k (r ∷ rs) e n h = (n.0, Numbered-snoc (suc k) rs e n.1 (omega arith))

Numbered-Under_self : (k : ℕ) (rs : List LogEntry) → Numbered k rs → Under (k + length rs) rs
Numbered-Under_self k [] n = tt
Numbered-Under_self k (r ∷ rs) n = (
  omega arith,
  Under-mono (suc k + length rs) (k + suc (length rs)) rs (omega arith)
      (Numbered-Under_self (suc k) rs n.1),
)

-- A proposed entry goes to the end of a log without gaps, and leaves none.
pub next-Numbered :
    (e : LogEntry) (rs : List LogEntry)
    → Numbered 1 rs
    → e.index ≡ next_index rs
    → FreshEvent e rs
    → (append_log e rs ≡ rs ++ e ∷ []) × Numbered 1 (append_log e rs)
unfolding next_index
next-Numbered e rs n at_end f =
    let e_index : e.index ≡ 1 + length rs = omega (arith, max_index-length rs n) in
    let shape =
      append_log_last e rs
        (Under-mono (1 + length rs) e.index rs (omega arith) (Numbered-Under_self 1 rs n)) f in
    (shape, rw shape (Numbered-snoc 1 rs e n e_index))

below_from : (i k : ℕ) (es : List LogEntry) → Numbered k es → i ≤ k → below i es ≡ []
unfolding below
below_from i k [] n h = refl
below_from i k (e ∷ es) n h = ground (arith, below_from i (suc k) es n.1)

pub Numbered-split :
    (k : ℕ) (pre es : List LogEntry) → Numbered k (pre ++ es) → Numbered (k + length pre) es
Numbered-split k [] es n = rw (omega_zero k) n
  where
    omega_zero : (m : ℕ) → m + 0 ≡ m
    omega_zero m = omega arith
Numbered-split k (r ∷ rs) es n = rw (shift k (length rs)) (Numbered-split (suc k) rs es n.1)
  where
    shift : (a b : ℕ) → a + suc b ≡ suc a + b
    shift a b = omega arith

-- Cutting a log without gaps just past `pre` leaves `pre`.
pub below-split :
    (k : ℕ) (pre es : List LogEntry)
    → Numbered k (pre ++ es)
    → below (k + length pre) (pre ++ es) ≡ pre
unfolding below
below-split k [] es n = below_from (k + 0) k es n (omega arith)
below-split k (r ∷ rs) es n =
    let ih = below-split (suc k) rs es n.1 in ground (arith, rw (shift k (length rs)) at ih)
  where
    shift : (a b : ℕ) → suc a + b ≡ a + suc b
    shift a b = omega arith

load_all : (i k : ℕ) (es : List LogEntry) → Numbered k es → i ≤ k → load_log_entries_from i es ≡ es
unfolding load_log_entries_from
load_all i k [] n h = refl
load_all i k (e ∷ es) n h = ground (arith, load_all i (suc k) es n.1)

-- The entries that a leader sends from the index past `pre` on are those after `pre`.
pub load-split :
    (k : ℕ) (pre es : List LogEntry)
    → Numbered k (pre ++ es)
    → load_log_entries_from (k + length pre) (pre ++ es) ≡ es
unfolding load_log_entries_from
load-split k [] es n = load_all (k + 0) k es n (omega arith)
load-split k (r ∷ rs) es n =
    let ih = load-split (suc k) rs es n.1 in ground (arith, rw (shift k (length rs)) at ih)
  where
    shift : (a b : ℕ) → suc a + b ≡ a + suc b
    shift a b = omega arith

term_at-below : (i : ℕ) (rs : List LogEntry) → term_at i (below (suc i) rs) ≡ term_at i rs
unfolding term_at below
term_at-below i [] = refl
term_at-below i (r ∷ rs) = ground (arith, term_at-below i rs)

-- The term at an index rests only on the rows up to it.
pub log_term_at-below :
    (i : ℕ) (rs : List LogEntry) → log_term_at i (below (suc i) rs) ≡ log_term_at i rs
unfolding log_term_at
log_term_at-below i rs = ground (arith, term_at-below i rs)
