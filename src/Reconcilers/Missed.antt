-- ===== src/Reconcilers/Missed.antt =====
-- What a reconciler has passed.
use agenda_distribuida.Prelude.{
  All-map, All-keep, ℕ, ◌≤◌, ◌≡◌, sym, subst, inl, inr, true, Bool-cases, String, List, [], ◌∷◌,
  Table, All, keep, ◌==◌, arith, if◌then◌else◌,
}
use agenda_distribuida.RaftHttp.{pass}
use agenda_distribuida.Events.{
  AuditLog, AuditFilter, Event, later_audit, recorded_before, selects_audit, selects_event,
  put_in_order, list_audit_logs, list_events,
}
use agenda_distribuida.Events.Order.{All-take, All-put_in_order}
use agenda_distribuida.ClusterHttp.Listing.{
  Layout, IsRfc3339, whole_seconds, since_in, cluster_local_user_audit,
}
use agenda_distribuida.Reconcilers.{newest_of, cursor_of, advance}
use agenda_distribuida.Reconcilers.Cursor.{
  query_value, rows_of, since-query, cursor-advance, newest_least, moved, events_asked,
  event_filter,
}

seconds_up : (c m s : ℕ) → s ≤ whole_seconds c → whole_seconds c ≤ m → s ≤ whole_seconds m
seconds_up c m s le up = omega (arith, le, up)

-- The registrations that a peer with those rows sends, for a request at a cursor.
abbrev pub audit_asked : Layout → ℕ → List AuditLog → List AuditLog
audit_asked l c rows = rows_of (cluster_local_user_audit l pass (query_value l c) rows)

-- The cursors after a row of requests to a peer, which had those rows at each of them.
first_moved :
    (id : String) (m : ℕ) (cursors : Table ℕ)
    → whole_seconds m ≤ whole_seconds (cursor_of id (advance id m cursors))
first_moved id m cursors = ground (arith, cursor-advance id m cursors)

module _ {E : Type 0} (at : E → ℕ) (ask : ℕ → List E → List E) (id : String) where
  unfoldable pub cursors_after : Table ℕ → List (List E) → Table ℕ
  cursors_after cursors [] = cursors
  cursors_after cursors (rows ∷ history) =
      cursors_after (moved at id (ask (cursor_of id cursors) rows) cursors) history

  module _ (since : (c : ℕ) (rows : List E) → All (λ e. whole_seconds c ≤ at e) (ask c rows)) where
    moved_on :
        (s : ℕ) (cursors : Table ℕ) (rows : List E)
        → s ≤ whole_seconds (cursor_of id cursors)
        → s ≤ whole_seconds (cursor_of id (moved at id (ask (cursor_of id cursors) rows) cursors))
    moved_on s cursors rows le =
        let c = cursor_of id cursors in
        let found = ask c rows in
        let m = newest_of at 0 found in
        let Past : ℕ → Type 0 = λ n. s ≤ whole_seconds n in
        subst Past (sym (cursor-advance id m cursors)) (elim (Bool-cases (m == 0)) [
          | inl unmoved ↦ subst (λ b. Past (if b then c else m)) (sym unmoved) le
          | inr by ↦
              subst (λ b. Past (if b then c else m)) (sym by)
                (elim (newest_least at 0 (whole_seconds c) found (since c rows)) [
                  | inl zeroth ↦ ground (arith, by, zeroth)
                  | inr up ↦ seconds_up c m s le up
                ])
        ])

    moved_on_all :
        (s : ℕ) (history : List (List E)) (cursors : Table ℕ)
        → s ≤ whole_seconds (cursor_of id cursors)
        → s ≤ whole_seconds (cursor_of id (cursors_after cursors history))
    unfolding cursors_after
    moved_on_all s [] cursors le = le
    moved_on_all s (rows ∷ history) cursors le =
        moved_on_all s history (moved at id (ask (cursor_of id cursors) rows) cursors)
          (moved_on s cursors rows le)

    -- After an answer whose newest time is `m`, nothing from before the second of `m` is listed.
    pub passed_for_good :
        (cursors : Table ℕ) (rows : List E) (history : List (List E)) (rows' : List E)
        → let m = newest_of at 0 (ask (cursor_of id cursors) rows) in
          let last = cursors_after cursors (rows ∷ history) in
          All (λ e. whole_seconds m ≤ at e) (ask (cursor_of id last) rows')
    unfolding cursors_after
    passed_for_good cursors rows history rows' =
        let found = ask (cursor_of id cursors) rows in
        let m = newest_of at 0 found in
        let next = moved at id found cursors in
        let last = cursor_of id (cursors_after next history) in
        let passed = moved_on_all (whole_seconds m) history next (first_moved id m cursors) in
        All-map (ask last rows') (λ e after. omega (arith, passed, after)) (since last rows')

abbrev pub audit_filter : Layout → ℕ → AuditFilter
audit_filter l c = record {
  component = "auth";
  action = "register";
  level = "";
  request_id = "";
  since = since_in l (query_value l c);
  limit = 0;
}

audit_from :
    (l : Layout) (c : ℕ) (a : AuditLog)
    → since_in l (query_value l c) ≡ whole_seconds c
    → selects_audit (audit_filter l c) a ≡ true
    → whole_seconds c ≤ a.occurred_at
unfolding selects_audit
audit_from l c a is h = ground (arith, is, h)

event_from :
    (l : Layout) (entity action : String) (c : ℕ) (e : Event)
    → since_in l (query_value l c) ≡ whole_seconds c
    → selects_event (event_filter l entity action c) e ≡ true
    → whole_seconds c ≤ e.created_at
unfolding selects_event
event_from l entity action c e is h = ground (arith, is, h)

pub audit_since :
    (l : Layout)
    → IsRfc3339 l
    → (c : ℕ) (rows : List AuditLog)
    → All (λ a. whole_seconds c ≤ a.occurred_at) (audit_asked l c rows)
unfolding cluster_local_user_audit list_audit_logs
audit_since l r c rows =
    let From : AuditLog → Type 0 = λ a. whole_seconds c ≤ a.occurred_at in
    let wanted = keep (selects_audit (audit_filter l c)) rows in
    All-take From 100 (put_in_order later_audit wanted) (
      All-put_in_order later_audit From wanted (
        All-map wanted (λ a. audit_from l c a (since-query l r c))
          (All-keep (selects_audit (audit_filter l c)) rows)))

event_since :
    (l : Layout)
    → IsRfc3339 l
    → (entity action : String) (c : ℕ) (rows : List Event)
    → All (λ e. whole_seconds c ≤ e.created_at) (events_asked l entity action c rows)
unfolding list_events
event_since l r entity action c rows =
    let From : Event → Type 0 = λ e. whole_seconds c ≤ e.created_at in
    let wanted = keep (selects_event (event_filter l entity action c)) rows in
    All-take From 1000 (put_in_order recorded_before wanted) (
      All-put_in_order recorded_before From wanted (
        All-map wanted (λ e. event_from l entity action c e (since-query l r c))
          (All-keep (selects_event (event_filter l entity action c)) rows)))

-- After an answer with events, no later request lists an event from before the second of the newest of
-- them, whether its proposal went through, failed or was left for later.
pub skipped_for_good :
    (l : Layout) (id entity action : String) (cursors : Table ℕ) (rows : List Event)
    (history : List (List Event)) (rows' : List Event)
    → IsRfc3339 l
    → let ask = events_asked l entity action in
      let m = newest_of (λ e. e.created_at) 0 (ask (cursor_of id cursors) rows) in
      let last = cursors_after (λ e. e.created_at) ask id cursors (rows ∷ history) in
      All (λ e. whole_seconds m ≤ e.created_at) (ask (cursor_of id last) rows')
skipped_for_good l id entity action cursors rows history rows' r =
    passed_for_good (λ e. e.created_at) (events_asked l entity action) id
      (event_since l r entity action) cursors rows history rows'
