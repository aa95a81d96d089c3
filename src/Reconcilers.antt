-- ===== src/Reconcilers.antt =====
-- What the five files reconciler_*.go share: a leader asks each peer for what it has recorded since the
-- last answer, and proposes what is missing in its own tables. The ticker and HTTP are left out: a round
-- is a function of what the peers answer. Propose comes back with its entry applied, or fails.
pub mod Again
pub mod Cursor
pub mod Missed
pub mod Registrations
pub mod Replayed
pub mod Users
pub mod Groups
pub mod Appointments
pub mod Invitations
pub mod Notifications
use agenda_distribuida.Prelude.{
  ℕ, suc, Bool, ◌||◌, String, ◌^^◌, Option, none, some, List, [], ◌∷◌, Table, lookup, insert, ltb,
  ◌==◌, str_eq, if◌then◌else◌,
}
use agenda_distribuida.Messages.{LogEntry}
use agenda_distribuida.Peers.{EnvPeerStore, list_peers, resolve_addr}
use agenda_distribuida.Users.{UserRow, get_user_by_username}
use agenda_distribuida.Tables.{Tables}
use agenda_distribuida.Payloads.{Codec}
use agenda_distribuida.DomainPropose.RoundTrip.{Proposal, built}
use agenda_distribuida.AppointmentService.{Consensus}
use agenda_distribuida.ClusterNodes.{NodeRow, upsert_cluster_node}
use agenda_distribuida.ClusterHttp.Listing.{Layout}

-- A node's surroundings. `hmac` is computeHMACSHA256Hex on a body and the secret; `clock` is what
-- time.Now says at its n-th reading while the answer of a peer is handled.
pub record Surroundings : Type 0 where
  pub codec : Codec
  pub consensus : Consensus
  pub node_id : String
  pub peers : EnvPeerStore
  pub secret : String
  pub hmac : String → String → String
  pub layout : Layout
  pub clock : String → ℕ → ℕ

-- client.Do on an address and a signature, with the body decoded: none if it fails or its status is
-- not a 2xx, none inside if the body does not decode.
abbrev pub Fetch : Type 0 → Type 0
Fetch E = String → String → Option (Option (List E))

-- `continue`, or the next stretch of the loop's body.
infixl 5 ◌>>=◌ ◌>>◌
abbrev pub ◌>>=◌ : {A B : Type 0} → Option A → (A → Option B) → Option B
◌>>=◌ none next = none
◌>>=◌ (some a) next = next a

abbrev pub ◌>>◌ : {A B : Type 0} → Option A → Option B → Option B
◌>>◌ none next = none
◌>>◌ (some a) next = next

abbrev pub skip_if : Bool → Option (Unit {0})
skip_if test = if test then none else some tt

-- The id of the user of that name, or the one that the event gives if it gives no name.
unfoldable pub local_id : String → String → List UserRow → Option String
local_id username remote_id users =
    if str_eq username ""
    then (if str_eq remote_id "" then none else some remote_id)
    else elim (get_user_by_username username users) [ none ↦ none | some u ↦ some u.id ]

-- An entry that cannot be built or proposed is skipped.
abbrev pub propose_entry : Consensus → Option LogEntry → Tables → Tables
propose_entry c none t = t
propose_entry c (some e) t = (c.propose e t).1

unfoldable pub propose_repair : Codec → Consensus → ℕ → Option Proposal → Tables → Tables
propose_repair codec c now none t = t
propose_repair codec c now (some q) t = propose_entry c (built codec now q) t

-- What an answer leaves: the tables, the table of nodes, and the newest time in it, or 0.
pub record Polled : Type 0 where
  pub tables : Tables
  pub nodes : List NodeRow
  pub newest : ℕ

abbrev pub since_query : Layout → ℕ → String
since_query l since = if since == 0 then "" else "?since=" ^^ l.format since

-- maxTS, from what it was.
unfoldable pub newest_of : {E : Type 0} → (E → ℕ) → ℕ → List E → ℕ
newest_of at m [] = m
newest_of at m (e ∷ es) = newest_of at (if ltb m (at e) then at e else m) es

module _ {E : Type 0} (at : E → ℕ) (decide : E → Tables → Option Proposal) where
  unfoldable pub repair : Codec → Consensus → ℕ → E → Tables → Tables
  unfolding propose_repair
  repair codec c now e t = propose_repair codec c now (decide e t) t

  unfoldable pub repair_all : Codec → Consensus → (ℕ → ℕ) → ℕ → List E → Tables → Tables
  repair_all codec c clock n [] t = t
  repair_all codec c clock n (e ∷ es) t =
      repair_all codec c clock (suc n) es (repair codec c (clock n) e t)

  unfoldable pub handle_answer :
      Surroundings → String → String → Option (Option (List E)) → Tables → List NodeRow → Polled
  handle_answer s id addr none t nodes = record { tables = t; nodes = nodes; newest = 0 }
  handle_answer s id addr (some answer) t nodes =
      let seen : List NodeRow =
        (upsert_cluster_node (s.clock id 0)
          (record {
            node_id = id;
            address = addr;
            source = "reconciler";
            last_seen = some (s.clock id 0);
          })
          nodes).1 in
      elim answer [
        | none ↦ record { tables = t; nodes = seen; newest = 0 }
        | some es ↦ record {
          tables = repair_all s.codec s.consensus (s.clock id) 1 es t;
          nodes = seen;
          newest = newest_of at 0 es;
        }
      ]

  unfoldable pub poll :
      Surroundings → String → Fetch E → String → String → ℕ → Tables → List NodeRow → Polled
  poll s path fetch id addr since t nodes =
      handle_answer s id addr
        (fetch ("http://" ^^ (addr ^^ (path ^^ since_query s.layout since))) (s.hmac "" s.secret)) t
        nodes

-- perPeer: a peer that is not in it has the zero time.
unfoldable pub cursor_of : String → Table ℕ → ℕ
cursor_of id cursors = elim (lookup id cursors) [ none ↦ 0 | some since ↦ since ]

unfoldable pub advance : String → ℕ → Table ℕ → Table ℕ
advance id newest cursors = if newest == 0 then cursors else insert id newest cursors

-- The peers that a round asks, with their addresses; the rest of the loop's body is `visit`.
module _ {S : Type 0} (s : Surroundings) (visit : String → String → S → S) where
  unfoldable pub visit_peer : String → S → S
  visit_peer id r =
      if str_eq id "" || str_eq id s.node_id
      then r
      else (let addr = resolve_addr s.peers id in if str_eq addr "" then r else visit id addr r)

  unfoldable pub visit_peers : List String → S → S
  visit_peers [] r = r
  visit_peers (id ∷ ids) r = visit_peers ids (visit_peer id r)

  -- One tick. Without a secret the reconciler does not run.
  unfoldable pub tick : S → S
  tick r =
      if str_eq s.secret ""
      then r
      else if s.consensus.leads
      then visit_peers (list_peers s.peers) r
      else r

-- The state of a reconciler that lists one kind of record.
pub record Reconciler : Type 0 where
  pub tables : Tables
  pub nodes : List NodeRow
  pub cursors : Table ℕ

unfoldable pub reconcile :
    {E : Type 0} (at : E → ℕ) (decide : E → Tables → Option Proposal)
    → Surroundings
    → String
    → Fetch E
    → Reconciler
    → Reconciler
reconcile at decide s path fetch = tick s (λ id addr r.
    let p = poll at decide s path fetch id addr (cursor_of id r.cursors) r.tables r.nodes in
    record { tables = p.tables; nodes = p.nodes; cursors = advance id p.newest r.cursors })
