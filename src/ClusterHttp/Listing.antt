-- ===== src/ClusterHttp/Listing.antt =====
-- cluster_http.go: the handlers that list what a node has recorded. The query's `since` is parsed by
-- Go's time.Parse.
use agenda_distribuida.Prelude.{
  ℕ, ◌*◌, ◌/◌, ◌≡◌, ◌≢◌, String, Option, none, some, List, str_eq, if◌then◌else◌,
}
use agenda_distribuida.RaftHttp.{Guard, pass, refuse}
use agenda_distribuida.ClusterNodes.{NodeRow}
use agenda_distribuida.Events.{Event, AuditLog, list_events, list_audit_logs}

-- time.Format and time.Parse with the layout time.RFC3339, on nanoseconds.
pub record Layout : Type 0 where
  pub format : ℕ → String
  pub parse : String → Option ℕ

abbrev pub whole_seconds : ℕ → ℕ
whole_seconds t = t / 1000000000 * 1000000000

-- The layout has no digits below the second; a time's text is not empty. Times after the year 9999, which
-- it cannot write, are outside the model.
pub record IsRfc3339 (l : Layout) : Type 0 where
  pub reads_back : (t : ℕ) → l.parse (l.format t) ≡ some (whole_seconds t)
  pub is_text : (t : ℕ) → l.format t ≢ ""

-- A refusal, or what is listed.
pub data Listing (A : Type 0) : Type 0 where
  denied : ℕ → String → Listing A
  listed : List A → Listing A

abbrev pub guarded : {A : Type 0} → Guard → List A → Listing A
guarded pass xs = listed xs
guarded (refuse code msg) xs = denied code msg

abbrev pub since_in : Layout → String → ℕ
since_in l q = if str_eq q "" then 0 else elim (l.parse q) [ none ↦ 0 | some t ↦ t ]

module _ (l : Layout) (guard : Guard) (q : String) (rows : List Event) where
  abbrev pub local_events : String → String → Listing Event
  local_events entity action = guarded guard (
      list_events (record { entity = entity; action = action; since = since_in l q; limit = 1000 })
        rows)

  unfoldable pub cluster_local_invitations : Listing Event
  cluster_local_invitations = local_events "invitation" "status_change"

  unfoldable pub cluster_local_notifications : Listing Event
  cluster_local_notifications = local_events "notification" "create"

  unfoldable pub cluster_local_groups : Listing Event
  cluster_local_groups = local_events "group" "create"

  unfoldable pub cluster_local_group_members : Listing Event
  cluster_local_group_members = local_events "group_member" "add"

  unfoldable pub cluster_local_appointments : Listing Event
  cluster_local_appointments = local_events "appointment" "create"

unfoldable pub cluster_local_user_audit : Layout → Guard → String → List AuditLog → Listing AuditLog
cluster_local_user_audit l guard q rows = guarded guard (
    list_audit_logs
      (record {
        component = "auth";
        action = "register";
        level = "";
        request_id = "";
        since = since_in l q;
        limit = 0;
      })
      rows)

unfoldable pub cluster_nodes : Guard → List NodeRow → Listing NodeRow
cluster_nodes guard rows = guarded guard rows
