-- ===== src/WebSocket.antt =====
-- websocket.go: the connections that notifications are pushed to. A client is a number with its user; a
-- map of sets of clients by user is the list of registered clients, since a client knows its user, and an
-- empty set is none. Channels without a buffer pass a client on at once, when Run takes it. Sockets,
-- their deadlines and pings are left out.
pub mod Channels
pub mod Safety
pub mod Serving
pub mod Crowded
use agenda_distribuida.Prelude.{
  ℕ, Bool, true, false, not, ◌&&◌, ◌||◌, String, Option, none, some, List, [], ◌∷◌, ◌++◌, map, keep,
  any, length, ltb, ◌==◌, str_eq, if◌then◌else◌,
}

pub record WsClient : Type 0 where
  pub id : ℕ
  pub user_id : String

-- A client's `send`: what is queued in it, and whether it was closed.
pub record Channel : Type 0 where
  pub client : ℕ
  pub queue : List String
  pub closed : Bool

-- `waiting` are the goroutines that hand a client to unregister. `stopped` says that Stop was called,
-- `running` that Run has not returned, `panicked` that a closed channel was sent to or closed.
pub record WsManager : Type 0 where
  pub conns : List WsClient
  pub channels : List Channel
  pub waiting : List WsClient
  pub stopped : Bool
  pub running : Bool
  pub panicked : Bool

-- NewWSManager, and Run started on it.
abbrev pub new_ws_manager : WsManager
new_ws_manager = record {
  conns = [];
  channels = [];
  waiting = [];
  stopped = false;
  running = true;
  panicked = false;
}

-- `make(chan []byte, 256)`
abbrev pub capacity : ℕ
capacity = 256

abbrev pub same_client : WsClient → WsClient → Bool
same_client c x = x.id == c.id

unfoldable pub is_closed : ℕ → List Channel → Bool
is_closed id channels = any (λ ch. ch.client == id && ch.closed) channels

unfoldable pub is_full : ℕ → List Channel → Bool
is_full id channels = any (λ ch. ch.client == id && not (ltb (length ch.queue) capacity)) channels

abbrev pub close_channel : ℕ → Channel → Channel
close_channel id ch = if ch.client == id then (record ch { closed = true }) else ch

unfoldable pub close_send : ℕ → WsManager → WsManager
close_send id m = record m {
  channels = map (close_channel id) m.channels;
  panicked = m.panicked || is_closed id m.channels;
}

-- The cases of Run's select.
unfoldable pub register : WsClient → WsManager → WsManager
register c m = if any (same_client c) m.conns then m else record m { conns = m.conns ++ (c ∷ []) }

unfoldable pub unregister : WsClient → WsManager → WsManager
unregister c m =
    if any (same_client c) m.conns
    then close_send c.id (record m { conns = keep (λ x. not (same_client c x)) m.conns })
    else m

unfoldable pub close_sends : List WsClient → WsManager → WsManager
close_sends [] m = m
close_sends (c ∷ cs) m = close_sends cs (close_send c.id m)

unfoldable pub close_all : WsManager → WsManager
close_all m = record (close_sends m.conns m) { conns = []; running = false }

abbrev pub push : ℕ → String → Channel → Channel
push id message ch =
    if ch.client == id then (record ch { queue = ch.queue ++ (message ∷ []) }) else ch

-- One send of BroadcastToUser: where the channel is full, a goroutine will unregister the client.
unfoldable pub send : String → WsClient → WsManager → WsManager
send message c m =
    if is_closed c.id m.channels
    then record m { panicked = true }
    else if is_full c.id m.channels
    then record m { waiting = m.waiting ++ (c ∷ []) }
    else record m { channels = map (push c.id message) m.channels }

unfoldable pub send_all : String → List WsClient → WsManager → WsManager
send_all message [] m = m
send_all message (c ∷ cs) m = send_all message cs (send message c m)

abbrev pub of_user : String → WsClient → Bool
of_user uid c = str_eq c.user_id uid

-- A message that does not encode is dropped.
unfoldable pub broadcast_to_user : String → Option String → WsManager → WsManager
broadcast_to_user uid none m = m
broadcast_to_user uid (some message) m = send_all message (keep (of_user uid) m.conns) m

unfoldable pub broadcast_to_users : List String → Option String → WsManager → WsManager
broadcast_to_users [] message m = m
broadcast_to_users (uid ∷ uids) message m =
    broadcast_to_users uids message (broadcast_to_user uid message m)

-- writePump takes what is queued.
abbrev pub drain : ℕ → Channel → Channel
drain id ch = if ch.client == id then (record ch { queue = [] }) else ch

unfoldable pub write_pump : ℕ → WsManager → WsManager
write_pump id m = record m { channels = map (drain id) m.channels }

-- A connection that ServeWS makes: a new client with its channel.
unfoldable pub connect : WsClient → WsManager → WsManager
connect c m = register c (record m {
  channels = m.channels ++ (record { client = c.id; queue = []; closed = false } ∷ []);
})

-- Stop closes a channel, which a second Stop must not.
unfoldable pub stop : WsManager → WsManager
stop m = if m.stopped then record m { panicked = true } else record m { stopped = true }
