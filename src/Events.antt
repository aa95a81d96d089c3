-- ===== src/Events.antt =====
-- The tables `events` and `audit_logs` of storage.go: what a node has recorded, and how it is listed.
-- Times are nanoseconds, and 0 is Go's zero time. Errors of the database are left out.
pub mod First
pub mod Order
use agenda_distribuida.Prelude.{
  ℕ, zero, suc, ◌+◌, Bool, not, ◌&&◌, ◌||◌, String, Option, none, some, List, [], ◌∷◌, ◌++◌, keep,
  ltb, leb, ◌==◌, str_eq, if◌then◌else◌,
}

pub record Event : Type 0 where
  pub id : ℕ
  pub entity : String
  pub entity_id : String
  pub action : String
  pub payload : String
  pub created_at : ℕ
  pub origin_node : String
  pub version : ℕ

pub record EventFilter : Type 0 where
  pub entity : String
  pub action : String
  pub since : ℕ
  pub limit : ℕ

pub record AuditLog : Type 0 where
  pub id : ℕ
  pub component : String
  pub action : String
  pub level : String
  pub message : String
  pub actor_id : Option String
  pub request_id : String
  pub node_id : String
  pub payload : String
  pub occurred_at : ℕ

pub record AuditFilter : Type 0 where
  pub component : String
  pub action : String
  pub level : String
  pub request_id : String
  pub since : ℕ
  pub limit : ℕ

-- A table whose ids are AUTOINCREMENT: the rows, and the last id that was given.
pub record Journal (A : Type 0) : Type 0 where
  pub rows : List A
  pub last_id : ℕ

unfoldable pub append_event : ℕ → Event → Journal Event → Event × Journal Event
append_event now e j =
    let e' : Event = record e { id = j.last_id + 1; created_at = now } in
    (e', record { rows = j.rows ++ (e' ∷ []); last_id = j.last_id + 1 })

-- A nil entry is `none`.
unfoldable pub append_audit :
    ℕ → Option AuditLog → Journal AuditLog → Option String × Journal AuditLog
append_audit now none j = (some "nil audit entry", j)
append_audit now (some a) j =
    let at : ℕ = if a.occurred_at == 0 then now else a.occurred_at in
    let a' : AuditLog = record a { id = j.last_id + 1; occurred_at = at } in
    (none, record { rows = j.rows ++ (a' ∷ []); last_id = j.last_id + 1 })

-- A condition that an empty text leaves out.
abbrev pub matches : String → String → Bool
matches wanted is = str_eq wanted "" || str_eq is wanted

abbrev pub not_before : ℕ → ℕ → Bool
not_before since at = since == 0 || leb since at

unfoldable pub selects_event : EventFilter → Event → Bool
selects_event f e =
    matches f.entity e.entity && matches f.action e.action && not_before f.since e.created_at

unfoldable pub selects_audit : AuditFilter → AuditLog → Bool
selects_audit f a =
    matches f.component a.component
    && matches f.action a.action
    && matches f.level a.level
    && matches f.request_id a.request_id
    && not_before f.since a.occurred_at

-- `ORDER BY`: rows of which neither comes before the other stay as they stood.
module _ {A : Type 0} (precedes : A → A → Bool) where
  unfoldable pub insert_in_order : A → List A → List A
  insert_in_order x [] = x ∷ []
  insert_in_order x (y ∷ ys) = if precedes y x then y ∷ insert_in_order x ys else x ∷ y ∷ ys

  unfoldable pub put_in_order : List A → List A
  put_in_order [] = []
  put_in_order (x ∷ xs) = insert_in_order x (put_in_order xs)

-- `LIMIT`
unfoldable pub take {ℓ} : {A : Type ℓ} → ℕ → List A → List A
take zero xs = []
take (suc n) [] = []
take (suc n) (x ∷ xs) = x ∷ take n xs

-- `ORDER BY created_at ASC, id ASC`
abbrev pub recorded_before : Event → Event → Bool
recorded_before a b =
    ltb a.created_at b.created_at || (a.created_at == b.created_at && ltb a.id b.id)

-- `ORDER BY occurred_at DESC`
abbrev pub later_audit : AuditLog → AuditLog → Bool
later_audit a b = ltb b.occurred_at a.occurred_at

unfoldable pub list_events : EventFilter → List Event → List Event
list_events f rows =
    let found : List Event = put_in_order recorded_before (keep (selects_event f) rows) in
    if f.limit == 0 then found else take f.limit found

abbrev pub audit_limit : ℕ → ℕ
audit_limit n = let m : ℕ = if n == 0 then 100 else n in if ltb 1000 m then 1000 else m

unfoldable pub list_audit_logs : AuditFilter → List AuditLog → List AuditLog
list_audit_logs f rows =
    take (audit_limit f.limit) (put_in_order later_audit (keep (selects_audit f) rows))
