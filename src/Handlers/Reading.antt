-- ===== src/Handlers/Reading.antt =====
-- The handlers of http_handlers_scaffold.go that only list, with notificationService of services.go and
-- parseTimeRange of utils.go. `uid` is the caller.
use agenda_distribuida.Prelude.{
  ℕ, ◌+◌, ◌/◌, not, String, Option, none, some, List, str_eq, ◌==◌, if◌then◌else◌,
}
use agenda_distribuida.Users.{User, get_user_by_id}
use agenda_distribuida.Groups.{
  Group, GroupMember, Appointment, get_group_by_id, get_group_members, get_groups_for_user,
}
use agenda_distribuida.Notifications.{
  Notification, get_user_notifications, get_unread_notifications, mark_notification_read,
}
use agenda_distribuida.Tables.{Env}
use agenda_distribuida.Service.{Service, notify, note}
use agenda_distribuida.AgendaService.{get_user_agenda_for_viewer, get_group_agenda_for_viewer}
use agenda_distribuida.ClusterHttp.Listing.{Layout}
use agenda_distribuida.Events.{AuditLog, list_audit_logs}
use agenda_distribuida.Handlers.{Handler, ◌>>=◌, ◌>>◌, reply, required, look_up, refuse_when}

-- Notify of notificationService
unfoldable pub notify_user : Env → String → String → String → Service (Unit {0})
notify_user env user type payload = notify env (note user type payload)

unfoldable pub handle_list_notifications : String → Handler (List Notification)
handle_list_notifications uid t = reply (get_user_notifications uid t.notifications) t

unfoldable pub handle_list_unread_notifications : String → Handler (List Notification)
handle_list_unread_notifications uid t = reply (get_unread_notifications uid t.notifications) t

-- The id is the path's.
unfoldable pub handle_mark_notification_read : Env → ℕ → String → Handler (Unit {0})
handle_mark_notification_read env now id t = reply tt (record t {
  notifications = mark_notification_read now (env.digest.trim_space id) t.notifications;
})

unfoldable pub handle_me : Env → String → Handler User
handle_me env uid = look_up 500 env.no_rows (λ t. get_user_by_id uid t.users)

unfoldable pub handle_list_my_groups : String → Handler (List Group)
handle_list_my_groups uid t = reply (get_groups_for_user uid t.group_tables) t

unfoldable pub handle_get_group_detail : Env → String → Handler (Group × List GroupMember)
handle_get_group_detail env group_id = do
  let gid = env.digest.trim_space group_id
  g ← look_up 404 env.no_rows (λ t. get_group_by_id gid t.group_tables)
  λ t. reply (g, get_group_members gid t.group_tables) t

-- The query's `start` and `end`, in whole seconds; `today` is the last midnight.
unfoldable pub parse_time_range : Layout → ℕ → String → String → ℕ × ℕ
parse_time_range l today start end = (
  (if str_eq start ""
      then today
      else elim (l.parse start) [ none ↦ today | some t ↦ t / 1000000000 ]),
  (if str_eq end ""
      then today + 604800
      else elim (l.parse end) [ none ↦ today + 604800 | some t ↦ t / 1000000000 ]),
)

unfoldable pub handle_get_user_agenda :
    Layout → ℕ → String → String → String → Handler (List Appointment)
handle_get_user_agenda l today start end uid t =
    let (from, to) = parse_time_range l today start end in
    reply (get_user_agenda_for_viewer uid from to t.group_tables) t

unfoldable pub handle_get_group_agenda :
    Env → Layout → ℕ → String → String → String → String → Handler (List Appointment)
handle_get_group_agenda env l today start end uid group_id t =
    let (from, to) = parse_time_range l today start end in
    reply (get_group_agenda_for_viewer uid (env.digest.trim_space group_id) from to t.group_tables)
      t

-- The query of a request for audit rows; a parameter that is missing is "".
pub record AuditQuery : Type 0 where
  pub component : String
  pub action : String
  pub level : String
  pub request_id : String
  pub since : String
  pub limit : String

abbrev audit_since : Layout → String → Option ℕ
audit_since l s = if str_eq s "" then some 0 else l.parse s

-- `atoi` is strconv.Atoi, none for an error or a negative number.
abbrev audit_limit_in : (String → Option ℕ) → String → Option ℕ
audit_limit_in atoi s =
    if str_eq s ""
    then some 0
    else elim (atoi s) [ none ↦ none | some n ↦ if n == 0 then none else some n ]

-- `secret` is AUDIT_API_TOKEN, and `token` the header X-Audit-Token.
unfoldable pub handle_list_audit_logs :
    Layout
    → (String → Option ℕ)
    → String
    → String
    → AuditQuery
    → List AuditLog
    → Handler (List AuditLog)
handle_list_audit_logs l atoi secret token q rows = do
  refuse_when (str_eq secret "") 404 "audit endpoint disabled"
  refuse_when (not (str_eq secret token)) 403 "forbidden"
  since ← required 400 "invalid since (RFC3339 required)" (audit_since l q.since)
  limit ← required 400 "invalid limit" (audit_limit_in atoi q.limit)
  reply (
      list_audit_logs
        (record {
          component = q.component;
          action = q.action;
          level = q.level;
          request_id = q.request_id;
          since = since;
          limit = limit;
        })
        rows)
