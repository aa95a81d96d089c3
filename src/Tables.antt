-- ===== src/Tables.antt =====
-- The tables of the domain together, and what its operations take from outside the program.
use agenda_distribuida.Prelude.{ℕ, String, none, some, List}
use agenda_distribuida.Ids.{Digest}
use agenda_distribuida.Users.{UserRow, get_user_by_id}
use agenda_distribuida.Groups.{Group, Appointment, GroupTables, get_group_by_id}
use agenda_distribuida.Notifications.{Notification}

pub record Tables : Type 0 where
  pub users : List UserRow
  pub group_tables : GroupTables
  pub notifications : List Notification

-- Texts that fmt and encoding/json make, the error of a lookup without a row, and Go's `len` of a
-- string. An invitation's text is made of the appointment, the group's name, the owner's two names and
-- the status; an answer's of the appointment, the user's id and two names, and "accepted" or
-- "declined". A line is what services.go makes by fmt, of the ids, the names of the group and of the
-- actor, and the rank.
pub record Env : Type 0 where
  pub digest : Digest
  pub byte_length : String → ℕ
  pub no_rows : String
  pub invite_text : Appointment → String → String → String → String → String
  pub answer_text : Appointment → String → String → String → String → String
  pub answer_line : Appointment → String → String → String → String → String
  pub group_line : Group → String → String → String → String
  pub member_line : String → String → String → String → String → ℕ → String
  pub personal_line : Appointment → String → String → String → String

-- The two names of a user that may not be there.
unfoldable pub names_of : List UserRow → String → String × String
names_of users uid = elim (get_user_by_id uid users) [
  | none ↦ ("", "")
  | some u ↦ (u.username, u.display_name)
]

unfoldable pub group_name_of : String → GroupTables → String
group_name_of gid t = elim (get_group_by_id gid t) [ none ↦ "" | some g ↦ g.name ]
