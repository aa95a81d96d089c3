-- ===== src/WebSocket/Crowded.antt =====
-- More notifications than a client's channel holds.
use agenda_distribuida.Prelude.{
  ℕ, suc, ◌≤◌, ◌<◌, ◌+◌, ◌≡◌, ◌≢◌, refl, sym, subst, ap, Option-cases, ◌∙◌, ◌⊎◌, inl, inr, Bool,
  true, false, Bool-cases, String, none, List, [], ◌∷◌, ◌++◌, map, keep, keep-append, every, any,
  any-append, All, length, length-append, ◌==◌, eq_iff, arith, if◌then◌else◌,
}
use agenda_distribuida.Notifications.{Notification, get_user_notifications}
use agenda_distribuida.WebSocket.{
  WsClient, Channel, WsManager, capacity, same_client, of_user, is_closed, is_full, push, send,
  send_all, broadcast_to_user, connect,
}
use agenda_distribuida.WebSocket.Serving.{WsEnv, served, drop, send_notes, open_socket}
use agenda_distribuida.Events.{take}
use agenda_distribuida.WebSocket.Safety.{Reached, next, tells, Reached-IsSafe, not_there, connected}
use agenda_distribuida.WebSocket.Channels.{
  has_channel, closed-map, has_channel-map, push_client, push_closed, closed-new, absent,
}

send_cases :
    (P : WsManager → Type 0) (s : String) (x : WsClient) (m : WsManager)
    → P (record m { panicked = true })
    → P (record m { waiting = m.waiting ++ (x ∷ []) })
    → P (record m { channels = map (push x.id s) m.channels })
    → P (send s x m)
unfolding send
send_cases P s x m broken full pushed =
    either (is_closed x.id m.channels) broken (either (is_full x.id m.channels) full pushed)
  where
    either : (b : Bool) {y z : WsManager} → P y → P z → P (if b then y else z)
    either true py pz = py
    either false py pz = pz

still_waiting :
    (c x : WsClient) (ws : List WsClient)
    → any (same_client c) ws ≡ true
    → any (same_client c) (ws ++ (x ∷ [])) ≡ true
unfolding any
still_waiting c x [] h = ground (arith, h)
still_waiting c x (w ∷ ws) h = ground (arith, h, still_waiting c x ws)

module _ (c : WsClient) (pre : List WsClient) where
  -- The client is registered last, and its channel is there and open.
  record IsOpen (m : WsManager) : Type 0 where
    registered : m.conns ≡ pre ++ (c ∷ [])
    not_closed : is_closed c.id m.channels ≡ false
    has : has_channel c.id m.channels ≡ true

  abbrev Queued : ℕ → List Channel → Type 0
  Queued k = All (λ ch. (ch.client == c.id) ≡ true → k ≤ length ch.queue)

  -- The client waits to be unregistered, or its channel has so many messages.
  abbrev Loaded : ℕ → WsManager → Type 0
  Loaded k m = (any (same_client c) m.waiting ≡ true) ⊎ (Queued k m.channels × (k ≤ capacity))

  Queued-push :
      (i k : ℕ) (s : String) (chs : List Channel) → Queued k chs → Queued k (map (push i s) chs)
  Queued-push i k s [] q = tt
  Queued-push i k s (ch ∷ chs) (le, q) = (longer (ch.client == i) ch le, Queued-push i k s chs q)
    where
      longer :
          (b : Bool) (ch : Channel)
          → ((ch.client == c.id) ≡ true → k ≤ length ch.queue)
          → ((if b then (record ch { queue = ch.queue ++ (s ∷ []) }) else ch).client == c.id) ≡ true
          → k ≤ length (if b then (record ch { queue = ch.queue ++ (s ∷ []) }) else ch).queue
      longer true ch le h = omega (arith, le h, length-append ch.queue (s ∷ []))
      longer false ch le h = le h

  push_queue :
      (s : String) (ch : Channel)
      → (ch.client == c.id) ≡ true
      → length (push c.id s ch).queue ≡ suc (length ch.queue)
  push_queue s ch mine = ground (arith, mine, length-append ch.queue (s ∷ []))

  one_more :
      (k : ℕ) (s : String) (ch : Channel)
      → ((ch.client == c.id) ≡ true → k ≤ length ch.queue)
      → ((push c.id s ch).client == c.id) ≡ true
      → suc k ≤ length (push c.id s ch).queue
  one_more k s ch le h =
      let mine = subst (λ x. (x == c.id) ≡ true) (push_client c.id s ch) h in
      omega (arith, le mine, push_queue s ch mine)

  Queued-push-mine :
      (k : ℕ) (s : String) (chs : List Channel)
      → Queued k chs
      → Queued (suc k) (map (push c.id s) chs)
  Queued-push-mine k s [] q = tt
  Queued-push-mine k s (ch ∷ chs) (le, q) = (one_more k s ch le, Queued-push-mine k s chs q)

  room_left :
      (k : ℕ) (chs : List Channel)
      → has_channel c.id chs ≡ true
      → is_full c.id chs ≡ false
      → Queued k chs
      → suc k ≤ capacity
  unfolding is_full any
  room_left k [] known room q = ground (arith, known)
  room_left k (ch ∷ chs) known room (le, q) = elim (Bool-cases (ch.client == c.id)) [
    | inl mine ↦ ground (arith, mine, room, le mine)
    | inr other ↦ room_left k chs (ground (arith, known, other)) (ground (arith, room, other)) q
  ]

  sent-IsOpen : (s : String) (x : WsClient) (m : WsManager) → IsOpen m → IsOpen (send s x m)
  sent-IsOpen s x m o =
      send_cases IsOpen s x m
        (record { registered = o.registered; not_closed = o.not_closed; has = o.has })
        (record { registered = o.registered; not_closed = o.not_closed; has = o.has })
        (record {
          registered = o.registered;
          not_closed =
              closed-map (push x.id s) (push_client x.id s) c.id m.channels
                (λ ch h. push_closed x.id s ch)
              ∙ o.not_closed;
          has = has_channel-map (push x.id s) (push_client x.id s) c.id m.channels ∙ o.has;
        })

  -- A message to anyone takes nothing away, and one to the client adds to it.
  sent_any :
      (k : ℕ) (s : String) (x : WsClient) (m : WsManager) → Loaded k m → Loaded k (send s x m)
  sent_any k s x m (inl waits) =
      send_cases (Loaded k) s x m (inl waits) (inl (still_waiting c x m.waiting waits)) (inl waits)
  sent_any k s x m (inr (q, le)) =
      send_cases (Loaded k) s x m (inr (q, le)) (inr (q, le))
        (inr (Queued-push x.id k s m.channels q, le))

  full_waits :
      (s : String) (m : WsManager) (x : WsClient)
      → IsOpen m
      → x.id ≡ c.id
      → is_full c.id m.channels ≡ true
      → send s x m ≡ record m { waiting = m.waiting ++ (x ∷ []) }
  unfolding send
  full_waits s m x o same full = ground (arith, o.not_closed, same, full)

  room_pushes :
      (s : String) (m : WsManager) (x : WsClient)
      → IsOpen m
      → x.id ≡ c.id
      → is_full c.id m.channels ≡ false
      → send s x m ≡ record m { channels = map (push c.id s) m.channels }
  unfolding send
  room_pushes s m x o same room = ground (arith, o.not_closed, same, room)

  pushed_mine :
      (k : ℕ) (s : String) (m : WsManager)
      → IsOpen m
      → is_full c.id m.channels ≡ false
      → Loaded k m
      → Loaded (suc k) (record m { channels = map (push c.id s) m.channels })
  pushed_mine k s m o room (inl waits) = inl waits
  pushed_mine k s m o room (inr (q, le)) =
      inr (Queued-push-mine k s m.channels q, room_left k m.channels o.has room q)

  sent_mine :
      (k : ℕ) (s : String) (x : WsClient) (m : WsManager)
      → IsOpen m
      → same_client c x ≡ true
      → Loaded k m
      → Loaded (suc k) (send s x m)
  sent_mine k s x m o mine loaded =
      let same : x.id ≡ c.id = ground (arith, mine) in
      elim (Bool-cases (is_full c.id m.channels)) [
        | inl full ↦
            subst (Loaded (suc k)) (sym (full_waits s m x o same full))
              (inl (any-append (same_client c) m.waiting x mine))
        | inr room ↦
            subst (Loaded (suc k)) (sym (room_pushes s m x o same room))
              (pushed_mine k s m o room loaded)
      ]

  told :
      (k : ℕ) (s : String) (cs : List WsClient) (m : WsManager)
      → Loaded k m
      → Loaded k (send_all s cs m)
  unfolding send_all
  told k s [] m loaded = loaded
  told k s (x ∷ xs) m loaded = told k s xs (send s x m) (sent_any k s x m loaded)

  told-IsOpen :
      (s : String) (cs : List WsClient) (m : WsManager) → IsOpen m → IsOpen (send_all s cs m)
  unfolding send_all
  told-IsOpen s [] m o = o
  told-IsOpen s (x ∷ xs) m o = told-IsOpen s xs (send s x m) (sent-IsOpen s x m o)

  told_one_more :
      (k : ℕ) (s : String) (cs : List WsClient) (m : WsManager)
      → IsOpen m
      → any (same_client c) cs ≡ true
      → Loaded k m
      → Loaded (suc k) (send_all s cs m)
  unfolding send_all any
  told_one_more k s [] m o among loaded = absurd (ground (arith, among))
  told_one_more k s (x ∷ xs) m o among loaded = elim (Bool-cases (same_client c x)) [
    | inl mine ↦ told (suc k) s xs (send s x m) (sent_mine k s x m o mine loaded)
    | inr other ↦
        told_one_more k s xs (send s x m) (sent-IsOpen s x m o) (ground (arith, among, other))
          (sent_any k s x m loaded)
  ]

  among_user :
      (m : WsManager) → IsOpen m → any (same_client c) (keep (of_user c.user_id) m.conns) ≡ true
  among_user m o =
      let mine : keep (of_user c.user_id) (c ∷ []) ≡ c ∷ [] =
        ground (arith, eq_iff c.user_id c.user_id) in
      subst (λ cs. any (same_client c) cs ≡ true)
        (sym (
          ap (keep (of_user c.user_id)) o.registered
          ∙ keep-append (of_user c.user_id) pre (c ∷ [])
          ∙ ap (λ cs. keep (of_user c.user_id) pre ++ cs) mine))
        (any-append (same_client c) (keep (of_user c.user_id) pre) c (ground arith))

  -- One more notification.
  note_sent :
      (k : WsEnv) (j : ℕ) (n : Notification) (m : WsManager)
      → k.marshal n ≢ none
      → IsOpen m
      → Loaded j m
      → IsOpen (broadcast_to_user c.user_id (k.marshal n) m)
        × Loaded (suc j) (broadcast_to_user c.user_id (k.marshal n) m)
  unfolding broadcast_to_user
  note_sent k j n m written o loaded = elim (Option-cases (k.marshal n)) [
    | inl unwritten ↦ absurd (written unwritten)
    | inr (s, is) ↦
        let to = keep (of_user c.user_id) m.conns in
        subst
          (λ b.
            IsOpen (broadcast_to_user c.user_id b m)
            × Loaded (suc j) (broadcast_to_user c.user_id b m))
          (sym is) (told-IsOpen s to m o, told_one_more j s to m o (among_user m o) loaded)
  ]

  notes_sent :
      (k : WsEnv) (i j : ℕ) (ns : List Notification) (m : WsManager)
      → i ≡ length ns + j
      → All (λ n. k.marshal n ≢ none) ns
      → IsOpen m
      → Loaded j m
      → Loaded i (send_notes k c.user_id ns m)
  unfolding send_notes
  notes_sent k i j [] m count written o loaded =
      subst (λ i. Loaded i m) (omega (arith, count)) loaded
  notes_sent k i j (n ∷ ns) m count (first, written) o loaded =
      let (o', loaded') = note_sent k j n m first o loaded in
      notes_sent k i (suc j) ns (broadcast_to_user c.user_id (k.marshal n) m) (omega (arith, count))
        written o' loaded'

  -- More than the channel holds.
  overflows :
      (i : ℕ) (m : WsManager) → capacity < i → Loaded i m → any (same_client c) m.waiting ≡ true
  overflows i m many (inl waits) = waits
  overflows i m many (inr (q, le)) = absurd (omega (arith, many, le))

opened-IsOpen :
    (c : WsClient) (m : WsManager)
    → any (same_client c) m.conns ≡ false
    → has_channel c.id m.channels ≡ false
    → IsOpen c m.conns (connect c m)
opened-IsOpen c m gone fresh = subst (IsOpen c m.conns) (sym (connected c m gone)) (record {
  registered = refl;
  not_closed = closed-new c.id c.id m.channels ∙ absent c.id m.channels fresh;
  has =
      any-append (λ ch. ch.client == c.id) m.channels
        (record { client = c.id; queue = []; closed = false }) (ground arith);
})

-- A message changes neither who is registered nor which channels there are.
told-has_channel :
    (id : ℕ) (s : String) (cs : List WsClient) (m : WsManager)
    → has_channel id (send_all s cs m).channels ≡ has_channel id m.channels
unfolding send_all
told-has_channel id s [] m = refl
told-has_channel id s (x ∷ xs) m =
    told-has_channel id s xs (send s x m)
    ∙ send_cases (λ n. has_channel id n.channels ≡ has_channel id m.channels) s x m refl refl
        (has_channel-map (push x.id s) (push_client x.id s) id m.channels)

noted-has_channel :
    (k : WsEnv) (uid : String) (id : ℕ) (ns : List Notification) (m : WsManager)
    → has_channel id (send_notes k uid ns m).channels ≡ has_channel id m.channels
unfolding send_notes broadcast_to_user
noted-has_channel k uid id [] m = refl
noted-has_channel k uid id (n ∷ ns) m = elim (Option-cases (k.marshal n)) [
  | inl unwritten ↦ ground (arith, unwritten, noted-has_channel k uid id ns m)
  | inr (s, is) ↦
      let to = keep (of_user uid) m.conns in
      ground
        (arith, is, noted-has_channel k uid id ns (send_all s to m), told-has_channel id s to m)
]

noted-Reached :
    (k : WsEnv) (uid : String) (ns : List Notification) (m : WsManager)
    → Reached m
    → Reached (send_notes k uid ns m)
unfolding send_notes
noted-Reached k uid [] m reached = reached
noted-Reached k uid (n ∷ ns) m reached =
    noted-Reached k uid ns (broadcast_to_user uid (k.marshal n) m)
      (next reached (tells uid (k.marshal n) m))

-- A connection of a user with more than 256 notifications is given up at once: a goroutine waits to
-- unregister the new client before its pumps have started. The manager is in any state that it can
-- come to while Run runs, the client is new to it and the connection is upgraded; what counts are the
-- notifications that are sent after Run has added the client, each of which encodes.
pub crowded_client_is_dropped :
    (k : WsEnv) (c : WsClient) (late : ℕ) (m : WsManager) (notes : List Notification)
    → Reached m
    → m.running ≡ true
    → has_channel c.id m.channels ≡ false
    → k.upgrades ≡ true
    → All (λ n. k.marshal n ≢ none) (drop late (get_user_notifications c.user_id notes))
    → 256 < length (drop late (get_user_notifications c.user_id notes))
    → (m' : WsManager) × (open_socket k c.id c.user_id late notes m ≡ served m')
      × (any (same_client c) m'.waiting ≡ true)
unfolding open_socket
crowded_client_is_dropped k c late m notes reached runs fresh upgraded written many =
    let before = take late (get_user_notifications c.user_id notes) in
    let ns = drop late (get_user_notifications c.user_id notes) in
    let m1 = send_notes k c.user_id before m in
    let fresh1 = noted-has_channel k c.user_id c.id before m ∙ fresh in
    let gone =
      not_there c m1 (Reached-IsSafe (noted-Reached k c.user_id before m reached)) fresh1 in
    let m0 = connect c m1 in
    (
      send_notes k c.user_id ns m0,
      ground (arith, upgraded, runs),
      overflows c m1.conns (length ns) (send_notes k c.user_id ns m0) many (
          notes_sent c m1.conns k (length ns) 0 ns m0 (omega arith) written
            (opened-IsOpen c m1 gone fresh1)
            (inr (every m0.channels (λ ch h. omega arith), omega arith))),
    )
