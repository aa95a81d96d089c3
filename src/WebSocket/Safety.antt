-- ===== src/WebSocket/Safety.antt =====
-- The states that connections, messages, disconnections and Stop lead to, and their channels.
use agenda_distribuida.Prelude.{
  ℕ, ◌≡◌, refl, sym, subst, ◌∙◌, ◌⊎◌, inl, inr, Bool-cases, true, false, not, ◌||◌, String, Option,
  none, some, List, [], ◌∷◌, ◌++◌, map, keep, any, All, All-map, All-both, All-keep, All-kept,
  All-append, any-All, any-append, ◌==◌, arith, if◌then◌else◌,
}
use agenda_distribuida.WebSocket.{
  WsClient, Channel, WsManager, new_ws_manager, same_client, of_user, is_closed, is_full,
  close_channel, close_send, register, unregister, close_sends, close_all, push, send, send_all,
  broadcast_to_user, drain, write_pump, connect, stop,
}
use agenda_distribuida.WebSocket.Channels.{
  Distinct-keep, Distinct-append, Distinct, has_channel, Live, closed-map, Live-map, push_client,
  push_closed, drain_client, drain_closed, closed-Live, closed-new, Live-new, absent, still_open,
  All-differ,
}

-- What happens to a manager, one thing at a time. A client is registered once, by the request that
-- made it, and Stop is called once.
pub data Step : WsManager → WsManager → Type 0 where
  connects :
      (c : WsClient) (m : WsManager)
      → m.running ≡ true
      → any (λ ch. ch.client == c.id) m.channels ≡ false
      → Step m (connect c m)
  leaves : (c : WsClient) (m : WsManager) → m.running ≡ true → Step m (unregister c m)
  drops :
      (c : WsClient) (rest : List WsClient) (m : WsManager)
      → m.running ≡ true
      → m.waiting ≡ c ∷ rest
      → Step m (unregister c (record m { waiting = rest }))
  tells :
      (uid : String) (message : Option String) (m : WsManager)
      → Step m (broadcast_to_user uid message m)
  writes : (id : ℕ) (m : WsManager) → Step m (write_pump id m)
  stops : (m : WsManager) → m.stopped ≡ false → Step m (stop m)
  ends : (m : WsManager) → m.stopped ≡ true → m.running ≡ true → Step m (close_all m)

pub data Reached : WsManager → Type 0 where
  started : Reached new_ws_manager
  next : {m n : WsManager} → Reached m → Step m n → Reached n

-- Nothing has panicked, and every registered client is there once, with an open channel.
pub record IsSafe (m : WsManager) : Type 0 where
  calm : m.panicked ≡ false
  live : All (Live m.channels) m.conns
  distinct : Distinct m.conns

-- What a send to an open channel does.
sent :
    (s : String) (c : WsClient) (m : WsManager)
    → is_closed c.id m.channels ≡ false
    → (send s c m ≡ record m { waiting = m.waiting ++ (c ∷ []) })
      ⊎ (send s c m ≡ record m { channels = map (push c.id s) m.channels })
unfolding send
sent s c m opened = elim (Bool-cases (is_full c.id m.channels)) [
  | inl full ↦ inl (ground (arith, opened, full))
  | inr room ↦ inr (ground (arith, opened, room))
]

-- A manager that is as safe, with the same channels closed.
abbrev AsSafe : WsManager → WsManager → Type 0
AsSafe m n = IsSafe n × ((j : ℕ) → is_closed j n.channels ≡ is_closed j m.channels)

sent-IsSafe :
    (s : String) (c : WsClient) (m : WsManager)
    → IsSafe m
    → is_closed c.id m.channels ≡ false
    → AsSafe m (send s c m)
sent-IsSafe s c m safe opened = elim (sent s c m opened) [
  | inl full ↦
      subst (AsSafe m) (sym full)
        (record { calm = safe.calm; live = safe.live; distinct = safe.distinct }, λ j. refl)
  | inr room ↦
      let f = push c.id s in
      subst (AsSafe m) (sym room) (
        record {
          calm = safe.calm;
          live =
              All-map m.conns
                (λ x. Live-map f (push_client c.id s) x m.channels (λ ch h. push_closed c.id s ch))
                safe.live;
          distinct = safe.distinct;
        },
        λ j. closed-map f (push_client c.id s) j m.channels (λ ch h. push_closed c.id s ch),
      )
]

send_all-IsSafe :
    (s : String) (cs : List WsClient) (m : WsManager)
    → IsSafe m
    → All (λ c. is_closed c.id m.channels ≡ false) cs
    → IsSafe (send_all s cs m)
unfolding send_all
send_all-IsSafe s [] m safe opened = safe
send_all-IsSafe s (c ∷ cs) m safe (first, rest) =
    let (safe', same) = sent-IsSafe s c m safe first in
    send_all-IsSafe s cs (send s c m) safe' (All-map cs (λ x h. same x.id ∙ h) rest)

broadcast-IsSafe :
    (uid : String) (message : Option String) (m : WsManager)
    → IsSafe m
    → IsSafe (broadcast_to_user uid message m)
unfolding broadcast_to_user
broadcast-IsSafe uid none m safe = safe
broadcast-IsSafe uid (some s) m safe = send_all-IsSafe s (keep (of_user uid) m.conns) m safe (
    All-kept (λ c. is_closed c.id m.channels ≡ false) (of_user uid) m.conns
      (All-map m.conns (λ c h. h.0) safe.live))

write-IsSafe : (id : ℕ) (m : WsManager) → IsSafe m → IsSafe (write_pump id m)
unfolding write_pump
write-IsSafe id m safe = record {
  calm = safe.calm;
  live =
      All-map m.conns
        (λ x. Live-map (drain id) (drain_client id) x m.channels (λ ch h. drain_closed id ch))
        safe.live;
  distinct = safe.distinct;
}

open_as :
    (x c : WsClient) (chs : List Channel)
    → same_client c x ≡ true
    → is_closed x.id chs ≡ false
    → is_closed c.id chs ≡ false
open_as x c chs same h = subst (λ i. is_closed i chs ≡ false) (ground (arith, same)) h

unregistered :
    (c : WsClient) (m : WsManager)
    → any (same_client c) m.conns ≡ true
    → unregister c m ≡ record m {
      conns = keep (λ x. not (same_client c x)) m.conns;
      channels = map (close_channel c.id) m.channels;
      panicked = m.panicked || is_closed c.id m.channels;
    }
unfolding unregister close_send
unregistered c m there = ground (arith, there)

not_registered :
    (c : WsClient) (m : WsManager) → any (same_client c) m.conns ≡ false → unregister c m ≡ m
unfolding unregister
not_registered c m gone = ground (arith, gone)

unregister-IsSafe : (c : WsClient) (m : WsManager) → IsSafe m → IsSafe (unregister c m)
unregister-IsSafe c m safe = elim (Bool-cases (any (same_client c) m.conns)) [
  | inl there ↦
      let closed_now =
        any-All {P = Live m.channels} (same_client c) m.conns
          (λ x h l. open_as x c m.channels h l.0) there safe.live in
      subst IsSafe (sym (unregistered c m there)) (record {
        calm = ground (arith, safe.calm, closed_now);
        live =
            All-both (keep (λ x. not (same_client c x)) m.conns)
              (λ x l h. closed-Live c.id m.channels x (ground (arith, h)) l)
              (All-kept (Live m.channels) (λ x. not (same_client c x)) m.conns safe.live)
              (All-keep (λ x. not (same_client c x)) m.conns);
        distinct = Distinct-keep (λ x. not (same_client c x)) m.conns safe.distinct;
      })
  | inr gone ↦ subst IsSafe (sym (not_registered c m gone)) safe
]

channel_as :
    (x c : WsClient) (chs : List Channel)
    → same_client c x ≡ true
    → has_channel x.id chs ≡ true
    → has_channel c.id chs ≡ true
channel_as x c chs same h = subst (λ i. has_channel i chs ≡ true) (ground (arith, same)) h

pub not_there :
    (c : WsClient) (m : WsManager)
    → IsSafe m
    → has_channel c.id m.channels ≡ false
    → any (same_client c) m.conns ≡ false
not_there c m safe fresh = elim (Bool-cases (any (same_client c) m.conns)) [
  | inr gone ↦ gone
  | inl there ↦
      let known =
        any-All {P = Live m.channels} (same_client c) m.conns
          (λ x h l. channel_as x c m.channels h l.1) there safe.live in
      absurd (ground (arith, fresh, known))
]

pub connected :
    (c : WsClient) (m : WsManager)
    → any (same_client c) m.conns ≡ false
    → connect c m ≡ record m {
      conns = m.conns ++ (c ∷ []);
      channels = m.channels ++ (record { client = c.id; queue = []; closed = false } ∷ []);
    }
unfolding connect register
connected c m gone = ground (arith, gone)

connect-IsSafe :
    (c : WsClient) (m : WsManager)
    → IsSafe m
    → has_channel c.id m.channels ≡ false
    → IsSafe (connect c m)
connect-IsSafe c m safe fresh =
    let new : Channel = record { client = c.id; queue = []; closed = false } in
    let chs : List Channel = m.channels ++ (new ∷ []) in
    subst IsSafe (sym (connected c m (not_there c m safe fresh))) (record {
      calm = safe.calm;
      live =
          All-append (Live chs) m.conns c
            (All-map m.conns (λ x l. Live-new c.id x m.channels l) safe.live)
            (
              closed-new c.id c.id m.channels ∙ absent c.id m.channels fresh,
              any-append (λ ch. ch.client == c.id) m.channels new (ground arith),
            );
      distinct = Distinct-append m.conns c (not_there c m safe fresh) safe.distinct;
    })

close_sends-calm :
    (cs : List WsClient) (m : WsManager)
    → m.panicked ≡ false
    → Distinct cs
    → All (λ c. is_closed c.id m.channels ≡ false) cs
    → (close_sends cs m).panicked ≡ false
unfolding close_sends close_send
close_sends-calm [] m calm d opened = calm
close_sends-calm (c ∷ cs) m calm (first, d) (now, rest) =
    close_sends-calm cs (close_send c.id m) (ground (arith, calm, now)) d
      (All-both cs (λ x h other. still_open c x m.channels other h) rest (All-differ c cs first))

closed_all-IsSafe : (m : WsManager) → IsSafe m → IsSafe (close_all m)
unfolding close_all
closed_all-IsSafe m safe = record {
  calm =
      close_sends-calm m.conns m safe.calm safe.distinct (All-map m.conns (λ c l. l.0) safe.live);
  live = tt;
  distinct = tt;
}

stopped-IsSafe : (m : WsManager) → m.stopped ≡ false → IsSafe m → IsSafe (stop m)
unfolding stop
stopped-IsSafe m going safe =
    let still : IsSafe (record m { stopped = true }) = (record {
      calm = safe.calm;
      live = safe.live;
      distinct = safe.distinct;
    }) in
    subst (λ b. IsSafe (if b then record m { panicked = true } else record m { stopped = true }))
      (sym going) still

Step-IsSafe : {m n : WsManager} → Step m n → IsSafe m → IsSafe n
Step-IsSafe (connects c m running fresh) safe = connect-IsSafe c m safe fresh
Step-IsSafe (leaves c m running) safe = unregister-IsSafe c m safe
Step-IsSafe (drops c rest m running waits) safe =
    unregister-IsSafe c (record m { waiting = rest })
      (record { calm = safe.calm; live = safe.live; distinct = safe.distinct })
Step-IsSafe (tells uid message m) safe = broadcast-IsSafe uid message m safe
Step-IsSafe (writes id m) safe = write-IsSafe id m safe
Step-IsSafe (stops m going) safe = stopped-IsSafe m going safe
Step-IsSafe (ends m stopped running) safe = closed_all-IsSafe m safe

pub Reached-IsSafe : {m : WsManager} → Reached m → IsSafe m
Reached-IsSafe started = record { calm = refl; live = tt; distinct = tt }
Reached-IsSafe (next reached s) = Step-IsSafe s (Reached-IsSafe reached)

-- However connections, messages, disconnections and Stop follow one another, nothing panics: no channel
-- is closed twice and none is sent to after it was closed; and the channel of every registered client
-- is open. Every connection is registered once, and Stop is called once.
pub never_panics :
    (m : WsManager)
    → Reached m
    → (m.panicked ≡ false) × All (λ c. is_closed c.id m.channels ≡ false) m.conns
never_panics m reached =
    let safe = Reached-IsSafe reached in (safe.calm, All-map m.conns (λ c l. l.0) safe.live)
