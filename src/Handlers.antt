-- ===== src/Handlers.antt =====
-- What the handlers of http_handlers_scaffold.go share: a handler looks at the tables, refuses with a
-- status code and a message, crashes at a nil pointer, or goes on. Headers, the texts of answers,
-- logging and auditing are left out.
pub mod Members
pub mod Groups
pub mod Appointments
pub mod Paths
pub mod Answers
pub mod Renaming
pub mod Accounts
pub mod Passwords
pub mod Details
pub mod Tokens
pub mod Sessions
pub mod Reading
use agenda_distribuida.Prelude.{
  ℕ, Bool, true, false, String, Option, none, some, str_eq, if◌then◌else◌,
}
use agenda_distribuida.Messages.{LogEntry}
use agenda_distribuida.Tables.{Tables}
use agenda_distribuida.Service.{Outcome, returned, failed, Service}
use agenda_distribuida.GroupService.{unauthorized}
use agenda_distribuida.AppointmentService.{Consensus, Site}

pub data Reply (A : Type 0) : Type 0 where
  done : A → Reply A
  refused : ℕ → String → Reply A
  crashed : Reply A

abbrev pub Handler : Type 0 → Type 0
Handler A = Tables → Reply A × Tables

abbrev pub go_on : {A B : Type 0} → Reply A × Tables → (A → Handler B) → Reply B × Tables
go_on (done a, t) next = next a t
go_on (refused code msg, t) next = (refused code msg, t)
go_on (crashed, t) next = (crashed, t)

infixl 5 ◌>>=◌ ◌>>◌
abbrev pub ◌>>=◌ : {A B : Type 0} → Handler A → (A → Handler B) → Handler B
◌>>=◌ call next t = go_on (call t) next

abbrev pub ◌>>◌ : {A B : Type 0} → Handler A → Handler B → Handler B
◌>>◌ call next t = go_on (call t) (λ x. next)

module _ {A : Type 0} where
  abbrev pub reply : A → Handler A
  reply a t = (done a, t)

  abbrev pub required : ℕ → String → Option A → Handler A
  required code msg none t = (refused code msg, t)
  required code msg (some a) t = (done a, t)

  abbrev pub look_up : ℕ → String → (Tables → Option A) → Handler A
  look_up code msg look t = required code msg (look t) t

  abbrev pub reply_of : (String → ℕ) → Outcome A → Reply A × Tables
  reply_of code (returned a t) = (done a, t)
  reply_of code (failed e t) = (refused (code e) e, t)

  -- A call of a service, with the code of each of its errors.
  abbrev pub delegate : (String → ℕ) → Service A → Handler A
  delegate code call t = reply_of code (call t)

abbrev pub refuse_when : Bool → ℕ → String → Handler (Unit {0})
refuse_when test code msg t = if test then (refused code msg, t) else (done tt, t)

abbrev pub proposed_reply : String → Option String × Tables → Reply (Unit {0}) × Tables
proposed_reply msg (none, t) = (done tt, t)
proposed_reply msg (some e, t) = (refused 500 msg, t)

-- The entry that was built is proposed; the message is for a proposal that fails.
abbrev pub replicate : Consensus → Option LogEntry → String → Handler (Unit {0})
replicate c none msg t = (refused 500 "internal error", t)
replicate c (some e) msg t = proposed_reply msg (c.propose e t)

abbrev pub forbidden_or_error : String → ℕ
forbidden_or_error e = if str_eq e unauthorized then 403 else 500
