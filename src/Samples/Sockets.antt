-- ===== src/Samples/Sockets.antt =====
-- The theorems on the connections, at work.
use agenda_distribuida.Prelude.{
  ℕ, zero, suc, ◌≡◌, ◌≢◌, refl, true, false, none, some, List, [], ◌∷◌, any, every, ltb→lt,
}
use agenda_distribuida.Notifications.{Notification, get_user_notifications}
use agenda_distribuida.WebSocket.{
  WsClient, WsManager, register, close_send, new_ws_manager, same_client, is_closed, unregister,
  broadcast_to_user, connect,
}
use agenda_distribuida.WebSocket.Safety.{
  connects, leaves, tells, Reached, started, next, never_panics,
}
use agenda_distribuida.WebSocket.Serving.{WsEnv, served, drop, open_socket}
use agenda_distribuida.WebSocket.Crowded.{crowded_client_is_dropped}

abbrev one : WsClient
one = record { id = 1; user_id = "ana" }

abbrev two : WsClient
two = record { id = 2; user_id = "ana" }

abbrev first : WsManager
first = connect one new_ws_manager

abbrev both : WsManager
both = connect two first

-- One of two clients leaves, the other is told something.
abbrev told : WsManager
told = broadcast_to_user "ana" (some "hi") (unregister one both)

told-Reached : Reached told
unfolding any connect register unregister close_send is_closed
told-Reached =
    next
      (next
        (next (next started (connects one new_ws_manager refl refl)) (connects two first refl refl))
        (leaves one both refl))
      (tells "ana" (some "hi") (unregister one both))

never_panics_example : told.panicked ≡ false
never_panics_example = (never_panics told told-Reached).0

abbrev ws_env : WsEnv
ws_env = record {
  to_lower = λ s. s;
  jwt = record {
    sign = λ key c. none;
    sign_error = "key is invalid";
    parse_with_claims = λ key now s. none;
  };
  now = 7;
  upgrades = true;
  marshal = λ n. some n.payload;
}

unfoldable notes : ℕ → List Notification
notes zero = []
notes (suc n) =
    record { id = "n"; user_id = "ana"; type = "info"; payload = "{}"; read_at = none } ∷ notes n

crowded_client_is_dropped_example :
    (m : WsManager) × (open_socket ws_env 1 "ana" 1 (notes 258) new_ws_manager ≡ served m)
    × (any (same_client one) m.waiting ≡ true)
unfolding notes get_user_notifications any drop
crowded_client_is_dropped_example =
    crowded_client_is_dropped ws_env one 1 new_ws_manager (notes 258) started refl refl refl
      (every {P = λ n. ws_env.marshal n ≢ none} (drop 1 (get_user_notifications "ana" (notes 258)))
        (λ n h. cc h))
      (ltb→lt 256 _ refl)
