-- ===== src/WebSocket/Serving.antt =====
-- ServeWS: the request that opens a connection, and the notifications that it sends before the pumps
-- start.
use agenda_distribuida.Prelude.{
  ℕ, zero, suc, Bool, not, String, Option, none, some, List, [], ◌∷◌, str_eq, if◌then◌else◌,
}
use agenda_distribuida.Text.{split_at_space}
use agenda_distribuida.Users.{UserRow, get_user_by_username}
use agenda_distribuida.Notifications.{Notification, get_user_notifications}
use agenda_distribuida.Events.{take}
use agenda_distribuida.Handlers.Tokens.{Jwt, parse_token}
use agenda_distribuida.WebSocket.{WsManager, connect, broadcast_to_user}

-- The header Authorization, and the query's `token`; a missing one is "".
unfoldable pub extract_token : (String → String) → String → String → Option String
extract_token to_lower authorization query =
    let from_query = if str_eq query "" then none else some query in
    if str_eq authorization "" then from_query else elim (split_at_space authorization) [
      | none ↦ from_query
      | some (scheme, token) ↦ if str_eq (to_lower scheme) "bearer" then some token else from_query
    ]

-- What a request has around it: strings.ToLower, the package jwt and the time in seconds, whether the
-- connection upgrades, and json.Marshal of a notification.
pub record WsEnv : Type 0 where
  pub to_lower : String → String
  pub jwt : Jwt
  pub now : ℕ
  pub upgrades : Bool
  pub marshal : Notification → Option String

-- A refusal with its code and text, an upgrade that failed, a send to register that nobody receives, or
-- the new state of the manager.
pub data Served : Type 0 where
  refused : ℕ → String → Served
  not_upgraded : Served
  blocked : Served
  served : WsManager → Served

unfoldable pub drop : ℕ → List Notification → List Notification
drop zero ns = ns
drop (suc k) [] = []
drop (suc k) (n ∷ ns) = drop k ns

unfoldable pub send_notes : WsEnv → String → List Notification → WsManager → WsManager
send_notes k uid [] m = m
send_notes k uid (n ∷ ns) m = send_notes k uid ns (broadcast_to_user uid (k.marshal n) m)

-- The client is new. Run receives it, and adds it to the registered ones when `late` of the
-- notifications have been sent.
unfoldable pub open_socket : WsEnv → ℕ → String → ℕ → List Notification → WsManager → Served
open_socket k fresh uid late notes m =
    if not k.upgrades
    then not_upgraded
    else if not m.running
    then blocked
    else let ns = get_user_notifications uid notes in
      served (
        send_notes k uid (drop late ns)
          (connect (record { id = fresh; user_id = uid }) (send_notes k uid (take late ns) m)))

unfoldable pub serve_ws :
    WsEnv → ℕ → String → String → ℕ → List UserRow → List Notification → WsManager → Served
unfolding open_socket
serve_ws k fresh authorization query late users notes m =
    elim (extract_token k.to_lower authorization query) [
      | none ↦ refused 401 "missing token"
      | some token ↦ elim (parse_token k.jwt k.now token) [
        | none ↦ refused 401 "invalid token"
        | some claims ↦ elim (get_user_by_username claims.username users) [
          | none ↦ refused 401 "user not found"
          | some u ↦ open_socket k fresh u.id late notes m
        ]
      ]
    ]
