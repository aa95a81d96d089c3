-- ===== src/Replication/CatchUp.antt =====
-- A leader and a follower that both run this code, where the leader's next index for the follower is right.
use agenda_distribuida.Prelude.{
  ℕ, suc, ◌+◌, ◌-◌, ◌≤◌, ◌<◌, ◌≡◌, refl, ap, sym, ◌∙◌, Bool, true, String, Option, none, some, List,
  ◌∷◌, ◌++◌, lookup, lookup-insert, length, length-append, arith, eq_iff,
}
use agenda_distribuida.Messages.{LogEntry, AppendEntriesRequest, AppendEntriesResponse}
use agenda_distribuida.RaftLog.{below, load_log_entries_from, log_term_at}
use agenda_distribuida.RaftLog.Numbered.{load-split}
use agenda_distribuida.Node.{Node, healthy}
use agenda_distribuida.AppendEntries.{handle_append_entries}
use agenda_distribuida.AppendEntries.Terms.{append_entries_term}
use agenda_distribuida.AppendEntries.Replicate.{IsLeaderLog, follower_copies_leader, one_more}
use agenda_distribuida.Replication.{
  next_for, prev_term_at, request_from, set_progress, take_answer, finished, send, attempt_once,
  catch_up,
}

-- A follower behind a network that delivers, with a database that answers: an error of the handler
-- is a status 500, which is a failed call.
unfoldable pub follower_exchange : AppendEntriesRequest → Node → Option AppendEntriesResponse × Node
follower_exchange req m =
    let (reply, m') = handle_append_entries healthy req m in
    (elim reply.1 [ none ↦ some reply.0 | some e ↦ none ], m')

-- The request of an attempt that sends the entries past `pre`.
abbrev pub suffix_request : ℕ → ℕ → List LogEntry → List LogEntry → Node → AppendEntriesRequest
suffix_request term commit pre sent n = request_from healthy term commit (length pre) sent n

attempt_sends :
    (pre es : List LogEntry) (e : LogEntry) (term commit last : ℕ) (pid : String) (n m : Node)
    → load_log_entries_from (suc (length pre)) n.raft_log ≡ e ∷ es
    → length pre < last
    → lookup pid n.next_idx ≡ some (suc (length pre))
    → attempt_once follower_exchange healthy term commit last pid n m
      ≡ send follower_exchange healthy term last pid (suffix_request term commit pre (e ∷ es) n) n m
unfolding attempt_once next_for
attempt_sends pre es e term commit last pid n m loaded more next =
    ground (arith, less_one (length pre))
  where
    less_one : (k : ℕ) → suc k - 1 ≡ k
    less_one k = omega arith

sent_and_taken :
    (term last : ℕ) (pid : String) (req : AppendEntriesRequest) (n m : Node)
    → (handle_append_entries healthy req m).0.1 ≡ none
    → (handle_append_entries healthy req m).0.0.success ≡ true
    → (handle_append_entries healthy req m).0.0.term ≡ term
    → (handle_append_entries healthy req m).0.0.match_index ≡ last
    → 0 < last
    → send follower_exchange healthy term last pid req n m
      ≡ (finished true (set_progress pid last n), (handle_append_entries healthy req m).1)
unfolding send follower_exchange take_answer
sent_and_taken term last pid req n m no_error done same match pos = ground arith

catch_up_finished :
    {P : Type 0} (exchange : AppendEntriesRequest → P → Option AppendEntriesResponse × P)
    (attempts term commit last : ℕ) (pid : String) (n n' : Node) (p p' : P) (done : Bool)
    → attempt_once exchange healthy term commit last pid n p ≡ (finished done n', p')
    → catch_up exchange (suc attempts) healthy term commit last pid n p ≡ (done, n', p')
unfolding catch_up
catch_up_finished exchange attempts term commit last pid n n' p p' done h = ground arith

prev_term_healthy : (idx : ℕ) (n : Node) → prev_term_at healthy idx n ≡ log_term_at idx n.raft_log
unfolding prev_term_at log_term_at
prev_term_healthy idx n = ground arith

answer_term :
    (req : AppendEntriesRequest) (m : Node)
    → m.current_term ≤ req.term
    → (handle_append_entries healthy req m).0.0.term ≡ req.term
answer_term req m newer = ground (arith, append_entries_term healthy req m)

lookup-set_progress :
    (pid : String) (match : ℕ) (n : Node)
    → (lookup pid (set_progress pid match n).match_idx ≡ some match)
      × (lookup pid (set_progress pid match n).next_idx ≡ some (match + 1))
unfolding set_progress
lookup-set_progress pid match n = ground (
  arith,
  lookup-insert pid pid match n.match_idx,
  lookup-insert pid pid (match + 1) n.next_idx,
  eq_iff pid pid,
)

-- A leader whose next index for a follower is the one past `pre`, where `pre` is what the follower
-- shares with it, needs one attempt: the broadcast counts the follower as a success, the follower's
-- log is the leader's, and the leader knows that the follower holds all of it. The leader's log is
-- numbered from 1 without gaps with distinct event ids, the follower's term is not later, the call
-- goes through and neither database fails.
pub catch_up_copies :
    (pre es : List LogEntry) (e : LogEntry) (attempts term commit : ℕ) (pid : String) (n m : Node)
    → n.raft_log ≡ pre ++ e ∷ es
    → IsLeaderLog (pre ++ e ∷ es)
    → lookup pid n.next_idx ≡ some (suc (length pre))
    → m.current_term ≤ term
    → below (suc (length pre)) m.raft_log ≡ pre
    → let last = length (pre ++ e ∷ es) in
      let r = catch_up follower_exchange (suc attempts) healthy term commit last pid n m in
      (r.0 ≡ true)
      × (r.2.raft_log ≡ n.raft_log)
      × (lookup pid r.1.match_idx ≡ some last)
      × (lookup pid r.1.next_idx ≡ some (last + 1))
catch_up_copies pre es e attempts term commit pid n m shape leads next newer agrees =
    let last = length (pre ++ e ∷ es) in
    let longer : length pre < last = omega (arith, length-append pre (e ∷ es)) in
    let req = suffix_request term commit pre (e ∷ es) n in
    let suffix = rw one_more at (load-split 1 pre (e ∷ es) leads.numbered) in
    let copied =
      follower_copies_leader pre es e req m leads (unfold request_from in sym suffix)
        (unfold request_from in refl)
        (unfold request_from in
          prev_term_healthy (length pre) n ∙ ap (log_term_at (length pre)) shape)
        (unfold request_from in newer) agrees in
    let sends =
      attempt_sends pre es e term commit last pid n m
        (ap (load_log_entries_from (suc (length pre))) shape ∙ suffix) longer next in
    let taken =
      sent_and_taken term last pid req n m copied.2 copied.1
        (unfold request_from in answer_term req m newer) copied.3 (omega (arith, longer)) in
    let whole =
      catch_up_finished follower_exchange attempts term commit last pid n (set_progress pid last n)
        m (handle_append_entries healthy req m).1 true (sends ∙ taken) in
    rw whole (
      refl,
      copied.0 ∙ sym shape,
      (lookup-set_progress pid last n).0,
      (lookup-set_progress pid last n).1,
    )
