-- ===== src/Notifications.antt =====
-- The table `notifications`: its operations in storage.go. The column created_at is left out;
-- Recording has the events.
use agenda_distribuida.Prelude.{
  ℕ, Bool, true, false, ◌&&◌, String, ◌^^◌, Option, none, some, List, [], ◌∷◌, ◌++◌, map, keep,
  find, any, str_eq, if◌then◌else◌,
}
use agenda_distribuida.Text.{is_blank}
use agenda_distribuida.Ids.{Digest, stable_id}
use agenda_distribuida.Users.{unique_error}

-- `read_at` is a time, `none` for NULL.
pub record Notification : Type 0 where
  pub id : String
  pub user_id : String
  pub type : String
  pub payload : String
  pub read_at : Option ℕ

unfoldable pub with_notification_id : Digest → Notification → Notification
with_notification_id d n =
    if is_blank n.id
    then (record n {
      id = stable_id d "notification" (n.user_id ^^ (":" ^^ (n.type ^^ (":" ^^ n.payload))));
    })
    else n

unfoldable pub add_notification :
    Digest → Notification → List Notification → Option String × List Notification
add_notification d n notes =
    if any (λ r. str_eq r.id (with_notification_id d n).id) notes
    then (some unique_error, notes)
    else (none, notes ++ (with_notification_id d n ∷ []))

-- The id of a notification, or "".
unfoldable pub find_notification_by_signature :
    String → String → String → List Notification → String
find_notification_by_signature user type payload notes =
    elim (find (λ r. str_eq r.user_id user && str_eq r.type type && str_eq r.payload payload)
      notes) [ none ↦ "" | some r ↦ r.id ]

unfoldable pub ensure_notification :
    Digest → Notification → List Notification → Option String × List Notification
ensure_notification d n notes =
    if str_eq (find_notification_by_signature n.user_id n.type n.payload notes) ""
    then add_notification d n notes
    else (none, notes)

unfoldable pub get_user_notifications : String → List Notification → List Notification
get_user_notifications user = keep (λ r. str_eq r.user_id user)

abbrev is_unread : Notification → Bool
is_unread r = elim r.read_at [ none ↦ true | some t ↦ false ]

unfoldable pub get_unread_notifications : String → List Notification → List Notification
get_unread_notifications user = keep (λ r. str_eq r.user_id user && is_unread r)

unfoldable pub mark_notification_read : ℕ → String → List Notification → List Notification
mark_notification_read now id =
    map (λ r. if str_eq r.id id then (record r { read_at = some now }) else r)
