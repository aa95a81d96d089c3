-- ===== src/Reconcilers/Cursor.antt =====
-- What a reconciler's requests to a peer list, one after another.
use agenda_distribuida.Prelude.{
  All-both, All-keep, ℕ, ◌≤◌, ◌*◌, ◌/◌, ◌≡◌, refl, sym, subst, ◌⊎◌, inl, inr, Bool, true,
  Bool-cases, String, List, [], ◌∷◌, Table, lookup-insert, All, any, keep, ltb, ◌==◌, eq_iff, arith,
  if◌then◌else◌,
}
use agenda_distribuida.RaftHttp.{pass}
use agenda_distribuida.Events.{
  Event, EventFilter, recorded_before, selects_event, put_in_order, list_events,
}
use agenda_distribuida.Events.Order.{put_in_order-All, put_in_order-Rising, take_or_later}
use agenda_distribuida.ClusterHttp.Listing.{
  Layout, IsRfc3339, whole_seconds, Listing, denied, listed, since_in, local_events,
}
use agenda_distribuida.Reconcilers.{newest_of, cursor_of, advance}

-- The value of `since` in a request, which net/url hands on.
abbrev pub query_value : Layout → ℕ → String
query_value l since = if since == 0 then "" else l.format since

abbrev pub rows_of : {A : Type 0} → Listing A → List A
rows_of (denied code msg) = []
rows_of (listed xs) = xs

zero_is : (c : ℕ) → (c == 0) ≡ true → 0 ≡ c
zero_is c h = ground (arith, h)

pub since-query :
    (l : Layout) → IsRfc3339 l → (c : ℕ) → since_in l (query_value l c) ≡ whole_seconds c
since-query l r c = elim (Bool-cases (c == 0)) [
  | inl zeroth ↦ subst (λ c. since_in l (query_value l c) ≡ whole_seconds c) (zero_is c zeroth) refl
  | inr later ↦ ground (arith, later, r.reads_back c, r.is_text c, eq_iff (l.format c) "")
]

pub cursor-advance :
    (id : String) (n : ℕ) (cursors : Table ℕ)
    → cursor_of id (advance id n cursors) ≡ (if n == 0 then cursor_of id cursors else n)
unfolding cursor_of advance
cursor-advance id n cursors = ground (arith, lookup-insert id id n cursors, eq_iff id id)

module _ {E : Type 0} (at : E → ℕ) where
  newest_most : (m b : ℕ) (es : List E) → m ≤ b → All (λ e. at e ≤ b) es → newest_of at m es ≤ b
  unfolding newest_of
  newest_most m b [] le all = le
  newest_most m b (e ∷ es) le (below, all) =
      newest_most (if ltb m (at e) then at e else m) b es (ground (arith, le, below)) all

  pub newest_least :
      (m b : ℕ) (es : List E)
      → All (λ e. b ≤ at e) es
      → (newest_of at m es ≡ m) ⊎ (b ≤ newest_of at m es)
  unfolding newest_of
  newest_least m b [] all = inl refl
  newest_least m b (e ∷ es) (above, all) = elim (Bool-cases (ltb m (at e))) [
    | inl newer ↦ elim (newest_least (at e) b es all) [
      | inl same ↦ inr (ground (arith, newer, same, above))
      | inr le ↦ inr (ground (arith, newer, le))
    ]
    | inr older ↦ elim (newest_least m b es all) [
      | inl same ↦ inl (ground (arith, older, same))
      | inr le ↦ inr (ground (arith, older, le))
    ]
  ]

abbrev with_id : Event → Event → Bool
with_id e x = x.id == e.id

-- The cursor of a peer after its answer was handled.
abbrev pub moved : {E : Type 0} → (E → ℕ) → String → List E → Table ℕ → Table ℕ
moved at id es cursors = advance id (newest_of at 0 es) cursors

module _ (l : Layout) where
  -- A list of events that a peer sends, for a request at a cursor.
  abbrev pub event_filter : String → String → ℕ → EventFilter
  event_filter entity action c = record {
    entity = entity;
    action = action;
    since = since_in l (query_value l c);
    limit = 1000;
  }

  abbrev pub events_asked : String → String → ℕ → List Event → List Event
  events_asked entity action c rows =
      rows_of (local_events l pass (query_value l c) rows entity action)

module _ (l : Layout) (r : IsRfc3339 l) where
  selected_since :
      (entity action : String) (c s n : ℕ) (e : Event)
      → n / 1000000000 * 1000000000 ≡ s
      → selects_event (event_filter l entity action c) e ≡ true
      → n ≤ e.created_at
      → selects_event (record { entity = entity; action = action; since = s; limit = 1000 }) e
        ≡ true
  unfolding selects_event
  selected_since entity action c s n e is selected le = ground (arith, is, selected, le)

  still_selected :
      (entity action : String) (c n : ℕ) (e : Event)
      → selects_event (event_filter l entity action c) e ≡ true
      → n ≤ e.created_at
      → selects_event (event_filter l entity action n) e ≡ true
  still_selected entity action c n e selected le =
      selected_since entity action c (since_in l (query_value l n)) n e (sym (since-query l r n))
        selected le

  asked_or_newer :
      (entity action : String) (c : ℕ) (rows : List Event)
      → let found = events_asked l entity action c rows in
        All
          (λ e. (any (with_id e) found ≡ true) ⊎ All (λ y. y.created_at ≤ e.created_at) found)
          (keep (selects_event (event_filter l entity action c)) rows)
  unfolding list_events
  asked_or_newer entity action c rows =
      put_in_order-All recorded_before _
        (keep (selects_event (event_filter l entity action c)) rows)
        (take_or_later (λ e. e.created_at) with_id (λ e. ground arith) 1000
          (put_in_order recorded_before
            (keep (selects_event (event_filter l entity action c)) rows))
          (put_in_order-Rising (λ e. e.created_at) recorded_before (λ a b h. ground (arith, h))
            (λ a b h. ground (arith, h))
            (keep (selects_event (event_filter l entity action c)) rows)))

  next_request :
      (id entity action : String) (cursors : Table ℕ) (found : List Event) (e : Event)
      → let c = cursor_of id cursors in
        let n = cursor_of id (moved (λ e. e.created_at) id found cursors) in
        selects_event (event_filter l entity action c) e ≡ true
        → (any (with_id e) found ≡ true) ⊎ All (λ y. y.created_at ≤ e.created_at) found
        → (any (with_id e) found ≡ true) ⊎ (selects_event (event_filter l entity action n) e ≡ true)
  next_request id entity action cursors found e selected (inl seen) = inl seen
  next_request id entity action cursors found e selected (inr newer) =
      let c = cursor_of id cursors in
      let m = newest_of (λ e. e.created_at) 0 found in
      let at_most = newest_most (λ e. e.created_at) 0 e.created_at found (omega arith) newer in
      let next : ℕ → Type 0 = λ n. selects_event (event_filter l entity action n) e ≡ true in
      inr (
        subst next (sym (cursor-advance id m cursors)) (elim (Bool-cases (m == 0)) [
          | inl unmoved ↦ subst (λ b. next (if b then c else m)) (sym unmoved) selected
          | inr by ↦
              subst (λ b. next (if b then c else m)) (sym by)
                (still_selected entity action c m e selected at_most)
        ]))

-- No event of a peer is passed over: an event that a request's filter selects is in the answer, or the
-- next request's filter selects it again, whatever of the answer was proposed. The answer holds the
-- first thousand events, and the next request names the newest time in it, in whole seconds.
pub events_not_skipped :
    (l : Layout) (id entity action : String) (cursors : Table ℕ) (rows : List Event)
    → IsRfc3339 l
    → let c = cursor_of id cursors in
      let found = events_asked l entity action c rows in
      let n = cursor_of id (moved (λ e. e.created_at) id found cursors) in
      All
        (λ e.
          (any (λ x. x.id == e.id) found ≡ true)
          ⊎ (selects_event (event_filter l entity action n) e ≡ true))
        (keep (selects_event (event_filter l entity action c)) rows)
events_not_skipped l id entity action cursors rows r =
    let c = cursor_of id cursors in
    All-both (keep (selects_event (event_filter l entity action c)) rows)
      (next_request l r id entity action cursors (events_asked l entity action c rows))
      (All-keep (selects_event (event_filter l entity action c)) rows)
      (asked_or_newer l r entity action c rows)
