-- ===== src/RaftUsers.antt =====
-- The operations of NewRaftApplier in raft_apply.go on users, their payloads decoded.
pub mod Idempotent
use agenda_distribuida.Prelude.{
  Bool, true, false, not, ◌&&◌, String, Option, none, some, List, str_eq, if◌then◌else◌,
}
use agenda_distribuida.Text.{contains}
use agenda_distribuida.Ids.{Digest}
use agenda_distribuida.Users.{
  User, UserRow, unique_error, get_user_by_username, get_user_by_email, get_user_by_id, create_user,
  update_user, update_password, ensure_user,
}

-- Whether the address belongs to the user of that name.
abbrev owns_email : User → List UserRow → Bool
owns_email p rows = if str_eq p.email "" then false else elim (get_user_by_email p.email rows) [
  | none ↦ false
  | some x ↦ str_eq x.username p.username
]

-- A failed insert counts as done when the user is there.
unfoldable pub created_meanwhile : String → User → List UserRow → Option String
created_meanwhile msg p rows =
    if contains msg unique_error
    then elim (get_user_by_username p.username rows) [
      | some x ↦ none
      | none ↦ if owns_email p rows then none else some msg
    ]
    else some msg

unfoldable pub insert_user : Digest → User → List UserRow → Option String × List UserRow
insert_user d p rows =
    let (err, u, rows') = create_user d p rows in
    elim err [ none ↦ (none, rows') | some msg ↦ (created_meanwhile msg p rows', rows') ]

-- `user.create`
unfoldable pub apply_user_create : Digest → User → List UserRow → Option String × List UserRow
apply_user_create d p rows = elim (get_user_by_username p.username rows) [
  | some x ↦ (none, rows)
  | none ↦
      if str_eq p.email "" then insert_user d p rows else elim (get_user_by_email p.email rows) [
        | none ↦ insert_user d p rows
        | some x ↦
            if str_eq x.username p.username
            then (none, rows)
            else (some "user.create apply conflict: email already exists", rows)
      ]
]

-- `repair.user.ensure`
unfoldable pub apply_ensure_user : Digest → User → List UserRow → Option String × List UserRow
apply_ensure_user d p rows =
    let (err, u, rows') = ensure_user d p rows in
    if not (str_eq p.password_hash "")
    then (err, rows')
    else elim (get_user_by_username p.username rows) [
      | some x ↦ (err, rows')
      | none ↦ (
        some "apply conflict: repair.user.ensure skipped for new user with empty password hash",
        rows,
      )
    ]

pub record UserUpdateProfile : Type 0 where
  pub user_id : String
  pub username : Option String
  pub email : Option String
  pub display_name : Option String

-- A field of the payload that is given replaces the one of the row.
abbrev pub given : Option String → String → String
given none old = old
given (some new) old = new

unfoldable pub desired : UserUpdateProfile → User → User
desired p u = record u {
  username = given p.username u.username;
  email = given p.email u.email;
  display_name = given p.display_name u.display_name;
}

abbrev same_profile : User → User → Bool
same_profile a b =
    str_eq a.username b.username && str_eq a.email b.email && str_eq a.display_name b.display_name

unfoldable pub profile_failed : String → UserUpdateProfile → User → List UserRow → Option String
profile_failed msg p want rows =
    if contains msg unique_error
    then elim (get_user_by_id p.user_id rows) [
      | none ↦ some "user.update_profile apply conflict: unique constraint"
      | some fresh ↦
          if same_profile fresh want
          then none
          else some "user.update_profile apply conflict: unique constraint"
    ]
    else some msg

-- `user.update_profile`; the error of a lookup that finds nothing is sql.ErrNoRows.
unfoldable pub apply_user_update_profile :
    String → UserUpdateProfile → List UserRow → Option String × List UserRow
apply_user_update_profile no_rows p rows = elim (get_user_by_id p.user_id rows) [
  | none ↦ (some no_rows, rows)
  | some u ↦
      if same_profile (desired p u) u
      then (none, rows)
      else (let (err, rows') = update_user (desired p u) rows in
          elim err [
            | none ↦ (none, rows')
            | some msg ↦ (profile_failed msg p (desired p u) rows', rows')
          ])
]

-- `user.update_password`, with the user's id and the new hash
unfoldable pub apply_user_update_password :
    String → String → List UserRow → Option String × List UserRow
apply_user_update_password id hash rows = elim (get_user_by_id id rows) [
  | none ↦ (none, update_password id hash rows)
  | some u ↦
      if str_eq u.password_hash hash then (none, rows) else (none, update_password id hash rows)
]
