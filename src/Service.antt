-- ===== src/Service.antt =====
-- A call of a service over the tables: it returns or fails, and what it wrote before stays.
use agenda_distribuida.Prelude.{Bool, String, Option, none, some, if◌then◌else◌}
use agenda_distribuida.Groups.{GroupTables}
use agenda_distribuida.Notifications.{Notification, add_notification}
use agenda_distribuida.Tables.{Tables, Env}

pub data Outcome (A : Type 0) : Type 0 where
  returned : A → Tables → Outcome A
  failed : String → Tables → Outcome A

abbrev pub Service : Type 0 → Type 0
Service A = Tables → Outcome A

abbrev pub proceed : {A B : Type 0} → Outcome A → (A → Service B) → Outcome B
proceed (returned a t) next = next a t
proceed (failed e t) next = failed e t

infixl 5 ◌>>=◌ ◌>>◌
abbrev pub ◌>>=◌ : {A B : Type 0} → Service A → (A → Service B) → Service B
◌>>=◌ call next t = proceed (call t) next

abbrev pub ◌>>◌ : {A B : Type 0} → Service A → Service B → Service B
◌>>◌ call next t = proceed (call t) (λ x. next)

module _ {A : Type 0} where
  abbrev pub give : A → Service A
  give a t = returned a t

  abbrev pub fail : String → Service A
  fail e t = failed e t

  abbrev pub ask : (Tables → A) → Service A
  ask look t = returned (look t) t

  -- A lookup, with the error that its failure becomes.
  abbrev pub need : String → (Tables → Option A) → Service A
  need e look t = elim (look t) [ none ↦ failed e t | some a ↦ returned a t ]

abbrev pub refuse_if : Bool → String → Service (Unit {0})
refuse_if test e t = if test then failed e t else returned tt t

abbrev pub settle : Option String × Tables → Outcome (Unit {0})
settle (none, t) = returned tt t
settle (some e, t) = failed e t

abbrev pub perform : (Tables → Option String × Tables) → Service (Unit {0})
perform write t = settle (write t)

abbrev pub on_groups : (GroupTables → Option String × GroupTables) → Service (Unit {0})
on_groups write t =
    let (err, g) = write t.group_tables in settle (err, record t { group_tables = g })

abbrev pub always : (GroupTables → GroupTables) → GroupTables → Option String × GroupTables
always write g = (none, write g)

abbrev pub notify : Env → Notification → Service (Unit {0})
notify env n t =
    let (err, notes) = add_notification env.digest n t.notifications in
    settle (err, record t { notifications = notes })

-- An error that the caller drops.
abbrev pub drop_error : Service (Unit {0}) → Service (Unit {0})
drop_error call t = elim (call t) [ returned x t' ↦ returned tt t' | failed e t' ↦ returned tt t' ]

abbrev pub note : String → String → String → Notification
note user type payload = record {
  id = "";
  user_id = user;
  type = type;
  payload = payload;
  read_at = none;
}

-- What a call leaves, whether it returned or failed.
abbrev pub left_by : {A : Type 0} → Outcome A → Tables
left_by (returned a t) = t
left_by (failed e t) = t
