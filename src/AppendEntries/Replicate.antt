-- ===== src/AppendEntries/Replicate.antt =====
-- A follower that takes the suffix of a leader's log.
use agenda_distribuida.Prelude.{
  ℕ, suc, ◌+◌, ◌≤◌, true, ◌≡◌, sym, ap, ◌∙◌, none, List, [], ◌∷◌, ◌++◌, length, length-append,
  append_assoc, ltb, arith, if◌then◌else◌,
}
use agenda_distribuida.Messages.{LogEntry, AppendEntriesRequest}
use agenda_distribuida.RaftLog.{
  append_log, truncate_log_from, below, log_term_at, load_log_entries_from,
}
use agenda_distribuida.RaftLog.Order.{Under-mono, below_all}
use agenda_distribuida.RaftLog.Numbered.{
  Numbered, DistinctEvents, append_log_last, Numbered-Under, Numbered-index, FreshEvent-middle,
  log_term_at-below, below-split, load-split,
}
use agenda_distribuida.Node.{Node, healthy, set_commit_index}
use agenda_distribuida.AppendEntries.{
  store_entries, stored, accept_entries, check_prev, handle_append_entries,
}
use agenda_distribuida.AppendEntries.Terms.{greeted}
use agenda_distribuida.AppendEntries.Logs.{greeted_keeps}

-- A leader's log: numbered from 1 without gaps, its event ids distinct.
pub record IsLeaderLog (rows : List LogEntry) : Type 0 where
  pub numbered : Numbered 1 rows
  pub distinct : DistinctEvents rows

-- One round of the loop: what lies below the entry's index stays, and the entry follows it.
cut_append :
    (pre es rows : List LogEntry) (e : LogEntry)
    → IsLeaderLog (pre ++ e ∷ es)
    → below e.index rows ≡ pre
    → append_log e (truncate_log_from e.index rows) ≡ pre ++ e ∷ []
unfolding truncate_log_from
cut_append pre es rows e leads agrees =
    let e_index = Numbered-index 1 pre es e leads.numbered in
    let under =
      Under-mono (1 + length pre) e.index pre (omega arith)
        (Numbered-Under 1 pre (e ∷ es) leads.numbered) in
    let appended = append_log_last e pre under (FreshEvent-middle pre es e leads.distinct) in
    ground (arith, appended)

store_entries_step :
    (e : LogEntry) (es rows : List LogEntry) (last : ℕ)
    → store_entries healthy (e ∷ es) last rows
      ≡ store_entries healthy es e.index (append_log e (truncate_log_from e.index rows))
unfolding store_entries
store_entries_step e es rows last = ground arith

regroup : (pre es : List LogEntry) (e : LogEntry) → (pre ++ e ∷ []) ++ es ≡ pre ++ e ∷ es
regroup pre es e = append_assoc pre (e ∷ []) es

store_entries_suffix :
    (es pre rows : List LogEntry) (e : LogEntry) (last : ℕ)
    → IsLeaderLog (pre ++ e ∷ es)
    → below (suc (length pre)) rows ≡ pre
    → store_entries healthy (e ∷ es) last rows ≡ stored (pre ++ e ∷ es) (length (pre ++ e ∷ es))
store_entries_suffix [] pre rows e last leads agrees =
    let e_index : e.index ≡ suc (length pre) =
      omega (arith, Numbered-index 1 pre [] e leads.numbered) in
    rw (store_entries_step e [] rows last, cut_append pre [] rows e leads (rw e_index agrees))
      (unfold store_entries in
        ap (stored (pre ++ e ∷ [])) (omega (arith, e_index, length-append pre (e ∷ []))))
store_entries_suffix (d ∷ es) pre rows e last leads agrees =
    let e_index : e.index ≡ suc (length pre) =
      omega (arith, Numbered-index 1 pre (d ∷ es) e leads.numbered) in
    let split = regroup pre (d ∷ es) e in
    let leads' : IsLeaderLog ((pre ++ e ∷ []) ++ d ∷ es) = rw split leads in
    rw
      (
        store_entries_step e (d ∷ es) rows last,
        cut_append pre (d ∷ es) rows e leads (rw e_index agrees),
      )
      (store_entries_suffix es (pre ++ e ∷ []) (pre ++ e ∷ []) d e.index leads' (
          below_all (suc (length (pre ++ e ∷ []))) (pre ++ e ∷ []) (
            Under-mono (1 + length (pre ++ e ∷ [])) (suc (length (pre ++ e ∷ []))) (pre ++ e ∷ [])
              (omega arith) (Numbered-Under 1 (pre ++ e ∷ []) (d ∷ es) leads'.numbered)))
        ∙ ap (λ rs. stored rs (length rs)) split)

pub one_more : (k : ℕ) → 1 + k ≡ suc k
one_more k = omega arith

-- The leader's row at the previous index is the follower's, so the consistency check passes.
prev_terms_agree :
    (pre es rows : List LogEntry)
    → Numbered 1 (pre ++ es)
    → below (suc (length pre)) rows ≡ pre
    → log_term_at (length pre) rows ≡ log_term_at (length pre) (pre ++ es)
prev_terms_agree pre es rows numbered agrees =
    let own : below (suc (length pre)) (pre ++ es) ≡ pre =
      rw one_more at (below-split 1 pre es numbered) in
    sym (log_term_at-below (length pre) rows)
    ∙ ap (log_term_at (length pre)) (agrees ∙ sym own)
    ∙ log_term_at-below (length pre) (pre ++ es)

handle_accepts :
    (req : AppendEntriesRequest) (n : Node)
    → n.current_term ≤ req.term
    → log_term_at req.prev_log_index (greeted healthy req n).raft_log ≡ req.prev_log_term
    → handle_append_entries healthy req n ≡ accept_entries healthy req (greeted healthy req n)
unfolding handle_append_entries check_prev
handle_accepts req n newer same = ground arith

accept_stored :
    (req : AppendEntriesRequest) (m : Node) (rows : List LogEntry) (last : ℕ)
    → store_entries healthy req.entries req.prev_log_index m.raft_log ≡ stored rows last
    → ((accept_entries healthy req m).1.raft_log ≡ rows)
      × ((accept_entries healthy req m).0.0.success ≡ true)
      × ((accept_entries healthy req m).0.1 ≡ none)
      × ((accept_entries healthy req m).0.0.match_index ≡ last)
      × ((accept_entries healthy req m).1.commit_index
          ≡ (if ltb m.commit_index req.leader_commit then req.leader_commit else m.commit_index))
unfolding accept_entries set_commit_index
accept_stored req m rows last h = ground arith

-- A follower whose rows up to the previous index are those of the leader takes the leader's suffix
-- past that index, and then has the leader's whole log: the answer says success and the last index, with no error,
-- the terms agree, and the commit index is the larger of its own and the leader's. The leader's log
-- is numbered from 1 without gaps with distinct event ids, the suffix is not empty, the request's
-- term is not older, and the follower's database does not fail.
pub follower_copies_leader :
    (pre es : List LogEntry) (e : LogEntry) (req : AppendEntriesRequest) (n : Node)
    → IsLeaderLog (pre ++ e ∷ es)
    → req.entries ≡ load_log_entries_from (suc (length pre)) (pre ++ e ∷ es)
    → req.prev_log_index ≡ length pre
    → req.prev_log_term ≡ log_term_at (length pre) (pre ++ e ∷ es)
    → n.current_term ≤ req.term
    → below (suc (length pre)) n.raft_log ≡ pre
    → ((handle_append_entries healthy req n).1.raft_log ≡ pre ++ e ∷ es)
      × ((handle_append_entries healthy req n).0.0.success ≡ true)
      × ((handle_append_entries healthy req n).0.1 ≡ none)
      × ((handle_append_entries healthy req n).0.0.match_index ≡ length (pre ++ e ∷ es))
      × ((handle_append_entries healthy req n).1.commit_index
          ≡ (if ltb n.commit_index req.leader_commit then req.leader_commit else n.commit_index))
follower_copies_leader pre es e req n leads sent prev prev_term newer agrees =
    let kept = greeted_keeps healthy req n in
    let suffix = sent ∙ rw one_more at (load-split 1 pre (e ∷ es) leads.numbered) in
    let stores : store_entries healthy req.entries req.prev_log_index
          (greeted healthy req n).raft_log
        ≡ stored (pre ++ e ∷ es) (length (pre ++ e ∷ es)) =
      cc (
        suffix,
        kept.0,
        store_entries_suffix es pre n.raft_log e req.prev_log_index leads agrees,
      ) in
    let same : log_term_at req.prev_log_index (greeted healthy req n).raft_log ≡ req.prev_log_term =
      cc
        (prev, prev_term, kept.0, prev_terms_agree pre (e ∷ es) n.raft_log leads.numbered agrees) in
    rw (handle_accepts req n newer same) (
      ground (
        arith,
        kept.1,
        accept_stored req (greeted healthy req n) (pre ++ e ∷ es) (length (pre ++ e ∷ es)) stores,
      ))
