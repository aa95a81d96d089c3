-- ===== src/WebSocket/Channels.antt =====
-- Channels that stay open, and clients that are registered once.
use agenda_distribuida.Prelude.{
  ℕ, ◌≡◌, refl, ◌∙◌, Bool, true, false, String, List, [], ◌∷◌, ◌++◌, map, keep, any, All, ◌==◌,
  arith, if◌then◌else◌,
}
use agenda_distribuida.WebSocket.{
  WsClient, Channel, same_client, is_closed, close_channel, push, drain,
}

abbrev pub Distinct : List WsClient → Type 0
Distinct [] = Unit
Distinct (c ∷ cs) = (any (same_client c) cs ≡ false) × Distinct cs

abbrev pub has_channel : ℕ → List Channel → Bool
has_channel id channels = any (λ ch. ch.client == id) channels

-- A client whose channel is there and open.
abbrev pub Live : List Channel → WsClient → Type 0
Live channels c = (is_closed c.id channels ≡ false) × (has_channel c.id channels ≡ true)

-- Updates of the channels that leave them open and keep their clients.
module _ (f : Channel → Channel) (same : (ch : Channel) → (f ch).client ≡ ch.client) where
  pub has_channel-map : (j : ℕ) (chs : List Channel) → has_channel j (map f chs) ≡ has_channel j chs
  unfolding any
  has_channel-map j [] = refl
  has_channel-map j (ch ∷ chs) = ground (arith, has_channel-map j chs, same ch)

  pub closed-map :
      (j : ℕ) (chs : List Channel)
      → ((ch : Channel) → (ch.client == j) ≡ true → (f ch).closed ≡ ch.closed)
      → is_closed j (map f chs) ≡ is_closed j chs
  unfolding is_closed any
  closed-map j [] still = refl
  closed-map j (ch ∷ chs) still = ground (arith, closed-map j chs still, same ch, still ch)

  pub Live-map :
      (c : WsClient) (chs : List Channel)
      → ((ch : Channel) → (ch.client == c.id) ≡ true → (f ch).closed ≡ ch.closed)
      → Live chs c
      → Live (map f chs) c
  Live-map c chs still (opened, known) =
      (closed-map c.id chs still ∙ opened, has_channel-map c.id chs ∙ known)

pub push_client : (i : ℕ) (s : String) (ch : Channel) → (push i s ch).client ≡ ch.client
push_client i s ch = ground arith

pub push_closed : (i : ℕ) (s : String) (ch : Channel) → (push i s ch).closed ≡ ch.closed
push_closed i s ch = ground arith

pub drain_client : (i : ℕ) (ch : Channel) → (drain i ch).client ≡ ch.client
drain_client i ch = ground arith

pub drain_closed : (i : ℕ) (ch : Channel) → (drain i ch).closed ≡ ch.closed
drain_closed i ch = ground arith

pub close_client : (i : ℕ) (ch : Channel) → (close_channel i ch).client ≡ ch.client
close_client i ch = ground arith

pub close_other :
    (i j : ℕ) (ch : Channel)
    → (j == i) ≡ false
    → (ch.client == j) ≡ true
    → (close_channel i ch).closed ≡ ch.closed
close_other i j ch other here = ground (arith, other, here)

pub closed-Live :
    (i : ℕ) (chs : List Channel) (c : WsClient)
    → (c.id == i) ≡ false
    → Live chs c
    → Live (map (close_channel i) chs) c
closed-Live i chs c other =
    Live-map (close_channel i) (close_client i) c chs (λ ch here. close_other i c.id ch other here)

pub any-keep :
    (p test : WsClient → Bool) (cs : List WsClient)
    → any p cs ≡ false
    → any p (keep test cs) ≡ false
unfolding any
any-keep p test [] h = refl
any-keep p test (c ∷ cs) h = ground (arith, h, any-keep p test cs)

pub keep_first :
    (b : Bool) (c : WsClient) (cs : List WsClient)
    → any (same_client c) cs ≡ false
    → Distinct cs
    → Distinct (if b then c ∷ cs else cs)
keep_first true c cs first rest = (first, rest)
keep_first false c cs first rest = rest

pub Distinct-keep :
    (test : WsClient → Bool) (cs : List WsClient) → Distinct cs → Distinct (keep test cs)
Distinct-keep test [] d = tt
Distinct-keep test (c ∷ cs) (first, rest) =
    keep_first (test c) c (keep test cs) (any-keep (same_client c) test cs first)
      (Distinct-keep test cs rest)

pub last_differs :
    (x c : WsClient) (xs : List WsClient)
    → same_client c x ≡ false
    → any (same_client x) xs ≡ false
    → any (same_client x) (xs ++ (c ∷ [])) ≡ false
unfolding any
last_differs x c [] other h = ground (arith, other)
last_differs x c (y ∷ ys) other h = ground (arith, last_differs x c ys other, h)

pub Distinct-append :
    (cs : List WsClient) (c : WsClient)
    → any (same_client c) cs ≡ false
    → Distinct cs
    → Distinct (cs ++ (c ∷ []))
unfolding any
Distinct-append [] c fresh d = (refl, tt)
Distinct-append (x ∷ xs) c fresh (first, rest) = (
  last_differs x c xs (ground (arith, fresh)) first,
  Distinct-append xs c (ground (arith, fresh)) rest,
)

pub closed-new :
    (i j : ℕ) (chs : List Channel)
    → is_closed j (chs ++ (record { client = i; queue = []; closed = false } ∷ []))
      ≡ is_closed j chs
unfolding is_closed any
closed-new i j [] = ground arith
closed-new i j (ch ∷ chs) = ground (arith, closed-new i j chs)

pub known-new :
    (i j : ℕ) (chs : List Channel)
    → has_channel j chs ≡ true
    → has_channel j (chs ++ (record { client = i; queue = []; closed = false } ∷ [])) ≡ true
unfolding any
known-new i j [] h = ground (arith, h)
known-new i j (ch ∷ chs) h = ground (arith, h, known-new i j chs)

pub Live-new :
    (i : ℕ) (x : WsClient) (chs : List Channel)
    → Live chs x
    → Live (chs ++ (record { client = i; queue = []; closed = false } ∷ [])) x
Live-new i x chs (opened, known) = (closed-new i x.id chs ∙ opened, known-new i x.id chs known)

pub absent : (i : ℕ) (chs : List Channel) → has_channel i chs ≡ false → is_closed i chs ≡ false
unfolding is_closed any
absent i [] h = refl
absent i (ch ∷ chs) h = ground (arith, h, absent i chs)

pub still_open :
    (c x : WsClient) (chs : List Channel)
    → same_client c x ≡ false
    → is_closed x.id chs ≡ false
    → is_closed x.id (map (close_channel c.id) chs) ≡ false
still_open c x chs other h =
    closed-map (close_channel c.id) (close_client c.id) x.id chs
      (λ ch here. close_other c.id x.id ch other here)
    ∙ h

pub All-differ :
    (c : WsClient) (cs : List WsClient)
    → any (same_client c) cs ≡ false
    → All (λ x. same_client c x ≡ false) cs
unfolding any
All-differ c [] h = tt
All-differ c (x ∷ xs) h = (ground (arith, h), All-differ c xs (ground (arith, h)))
