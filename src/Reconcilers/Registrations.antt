-- ===== src/Reconcilers/Registrations.antt =====
-- Registrations that the newest hundred hide.
use agenda_distribuida.Prelude.{
  suc, length, ltb, ◌+◌, All-map, ℕ, ◌≤◌, ◌<◌, ◌≡◌, sym, subst, Bool, true, String, List, [], ◌∷◌,
  Table, All, keep, arith, if◌then◌else◌,
}
use agenda_distribuida.Events.{
  AuditLog, later_audit, selects_audit, take, put_in_order, list_audit_logs,
}
use agenda_distribuida.Events.First.{take-First, put_in_order-First}
use agenda_distribuida.Events.Order.{count-put_in_order}
use agenda_distribuida.ClusterHttp.Listing.{
  Layout, IsRfc3339, whole_seconds, cluster_local_user_audit,
}
use agenda_distribuida.Reconcilers.{newest_of, cursor_of}
use agenda_distribuida.Reconcilers.Missed.{
  audit_asked, cursors_after, passed_for_good, audit_filter, audit_since,
}

-- The registrations of a later second than the first one's.
abbrev pub later_than : AuditLog → AuditLog → Bool
later_than a b = ltb a.occurred_at (whole_seconds b.occurred_at)

abbrev next_second : ℕ → ℕ
next_second t = whole_seconds t + 1000000000

later_from : (a b : AuditLog) → later_than a b ≡ true → next_second a.occurred_at ≤ b.occurred_at
later_from a b h = ground (arith, h)

-- The newest hundred are all later than the first one, if a hundred are.
first_hundred :
    (l : Layout) (a : AuditLog) (c : ℕ) (rows : List AuditLog)
    → 100 ≤ length (keep (later_than a) (keep (selects_audit (audit_filter l c)) rows))
    → All (λ b. later_than a b ≡ true) (audit_asked l c rows)
unfolding cluster_local_user_audit list_audit_logs
first_hundred l a c rows many =
    let wanted = keep (selects_audit (audit_filter l c)) rows in
    take-First (later_than a) 100 (put_in_order later_audit wanted)
      (put_in_order-First (later_than a) later_audit (λ x y h up. ground (arith, h, up))
        (λ x y h up. ground (arith, h, up)) wanted)
      (subst (λ n. 100 ≤ n) (sym (count-put_in_order later_audit (later_than a) wanted)) many)

newest_grows : {E : Type 0} (at : E → ℕ) (m : ℕ) (es : List E) → m ≤ newest_of at m es
unfolding newest_of
newest_grows at m [] = omega arith
newest_grows at m (e ∷ es) = ground (arith, newest_grows at (if ltb m (at e) then at e else m) es)

newest_reaches :
    {E : Type 0} (at : E → ℕ) (b : ℕ) (es : List E)
    → 1 ≤ length es
    → All (λ e. b ≤ at e) es
    → b ≤ newest_of at 0 es
unfolding newest_of
newest_reaches at b [] some_row all = absurd (omega (arith, some_row))
newest_reaches at b (e ∷ es) some_row (le, all) =
    ground (arith, le, newest_grows at (if ltb 0 (at e) then at e else 0) es)

length-keep : {E : Type 0} (p : E → Bool) (es : List E) → length (keep p es) ≤ length es
length-keep p [] = omega arith
length-keep p (e ∷ es) = ground (arith, length-keep p es)

take_some : {E : Type 0} (n : ℕ) (es : List E) → 1 ≤ length es → 1 ≤ length (take (suc n) es)
unfolding take
take_some n [] some_row = some_row
take_some n (e ∷ es) some_row = omega arith

hundred_rows :
    (l : Layout) (a : AuditLog) (c : ℕ) (rows : List AuditLog)
    → 100 ≤ length (keep (later_than a) (keep (selects_audit (audit_filter l c)) rows))
    → 1 ≤ length (audit_asked l c rows)
unfolding cluster_local_user_audit list_audit_logs
hundred_rows l a c rows many =
    let wanted = keep (selects_audit (audit_filter l c)) rows in
    let ordered = put_in_order later_audit wanted in
    take_some 99 ordered (
      omega (
        arith,
        many,
        count-put_in_order later_audit (later_than a) wanted,
        length-keep (later_than a) ordered,
      ))

-- A registration that a hundred others follow, in later seconds, is never seen by the reconciler: it is
-- in no answer, neither to the request that selects them all nor to any later one, whatever rows the
-- peer has by then.
pub registrations_missed :
    (l : Layout) (a : AuditLog) (id : String) (cursors : Table ℕ) (rows : List AuditLog)
    (history : List (List AuditLog)) (rows' : List AuditLog)
    → IsRfc3339 l
    → 100
      ≤ length
          (keep (later_than a) (keep (selects_audit (audit_filter l (cursor_of id cursors))) rows))
    → let last = cursors_after (λ a. a.occurred_at) (audit_asked l) id cursors (rows ∷ history) in
      All (λ b. a.occurred_at < b.occurred_at) (audit_asked l (cursor_of id cursors) rows)
      × All (λ b. a.occurred_at < b.occurred_at) (audit_asked l (cursor_of id last) rows')
registrations_missed l a id cursors rows history rows' r many =
    let c = cursor_of id cursors in
    let found = audit_asked l c rows in
    let hundred = first_hundred l a c rows many in
    let last = cursors_after (λ a. a.occurred_at) (audit_asked l) id cursors (rows ∷ history) in
    let reached : next_second a.occurred_at ≤ newest_of (λ a. a.occurred_at) 0 found =
      newest_reaches (λ a. a.occurred_at) (next_second a.occurred_at) found
        (hundred_rows l a c rows many) (All-map found (λ b h. later_from a b h) hundred) in
    (
      All-map found (λ b h. ground (arith, h)) hundred,
      All-map (audit_asked l (cursor_of id last) rows') (λ b after. omega (arith, reached, after))
          (passed_for_good (λ a. a.occurred_at) (audit_asked l) id (audit_since l r) cursors rows
            history rows'),
    )
