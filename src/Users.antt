-- ===== src/Users.antt =====
-- The table `users`: its operations in storage.go, and the operations of raft_apply.go on it.
-- SQLite's answers are those of a table with the constraints of `migrate`: the id is the primary
-- key, username and email are UNIQUE, and email alone may be NULL. A statement that violates one of
-- them fails with SQLite's error and changes nothing; other failures of the database are left out
-- here, and so are the columns created_at and updated_at. The payloads come in decoded.
pub mod Laws
pub mod Unique
use agenda_distribuida.Prelude.{
  Bool, true, false, not, ◌&&◌, ◌||◌, String, ◌^^◌, Option, none, some, List, [], ◌∷◌, ◌++◌, map,
  find, any, str_eq, if◌then◌else◌,
}
use agenda_distribuida.Text.{contains, is_blank}
use agenda_distribuida.Ids.{Digest, user_id_from_username}

pub record User : Type 0 where
  pub id : String
  pub username : String
  pub email : String
  pub password_hash : String
  pub display_name : String

-- A row of the table: `none` is NULL.
pub record UserRow : Type 0 where
  pub id : String
  pub username : String
  pub email : Option String
  pub password_hash : String
  pub display_name : String

abbrev pub unique_error : String
unique_error = "UNIQUE constraint failed"

abbrev pub row_of : User → UserRow
row_of u = record {
  id = u.id;
  username = u.username;
  email = some u.email;
  password_hash = u.password_hash;
  display_name = u.display_name;
}

abbrev pub email_is : String → UserRow → Bool
email_is email r = elim r.email [ none ↦ false | some e ↦ str_eq e email ]

-- `Scan` into a Go string fails on NULL.
unfoldable pub scan_user : Option UserRow → Option User
scan_user none = none
scan_user (some r) = elim r.email [
  | none ↦ none
  | some e ↦ some (record {
    id = r.id;
    username = r.username;
    email = e;
    password_hash = r.password_hash;
    display_name = r.display_name;
  })
]

unfoldable pub get_user_by_username : String → List UserRow → Option User
unfolding scan_user
get_user_by_username name rows = scan_user (find (λ r. str_eq r.username name) rows)

unfoldable pub get_user_by_email : String → List UserRow → Option User
unfolding scan_user
get_user_by_email email rows = scan_user (find (email_is email) rows)

unfoldable pub get_user_by_id : String → List UserRow → Option User
unfolding scan_user
get_user_by_id id rows = scan_user (find (λ r. str_eq r.id id) rows)

-- A row that keeps the user from being inserted.
abbrev pub clashes : User → UserRow → Bool
clashes u r = str_eq r.id u.id || str_eq r.username u.username || email_is u.email r

unfoldable pub with_id : Digest → User → User
with_id d u = if is_blank u.id then (record u { id = user_id_from_username d u.username }) else u

-- The error, the user with its id, and the table.
unfoldable pub create_user : Digest → User → List UserRow → Option String × User × List UserRow
create_user d u rows =
    if any (clashes (with_id d u)) rows
    then (some unique_error, with_id d u, rows)
    else (none, with_id d u, rows ++ (row_of (with_id d u) ∷ []))

-- Another row that holds the name or the address.
abbrev pub taken : User → UserRow → Bool
taken u r = not (str_eq r.id u.id) && (str_eq r.username u.username || email_is u.email r)

abbrev pub set_profile : User → UserRow → UserRow
set_profile u r =
    if str_eq r.id u.id
    then (record r { username = u.username; email = some u.email; display_name = u.display_name })
    else r

unfoldable pub update_user : User → List UserRow → Option String × List UserRow
update_user u rows =
    if any (λ r. str_eq r.id u.id) rows && any (taken u) rows
    then (some unique_error, rows)
    else (none, map (set_profile u) rows)

unfoldable pub update_password : String → String → List UserRow → List UserRow
update_password id hash =
    map (λ r. if str_eq r.id id then (record r { password_hash = hash }) else r)

unfoldable pub clear_user_email_if_matches : String → String → List UserRow → List UserRow
clear_user_email_if_matches id email =
    map (λ r. if str_eq r.id id && email_is email r then (record r { email = none }) else r)

-- What a lookup of EnsureUser finds: nothing, the user itself, or one with other data.
pub data Existing : Type 0 where
  free : Existing
  same : User → Existing
  conflicting : String → Existing

-- The texts around the name in the error.
abbrev pub at_first : String × String
at_first = ("ensure_user conflict: ", " already exists with different data")

abbrev pub after_race : String × String
after_race = ("ensure_user conflict after insert race: ", " now exists with different data")

unfoldable pub check_username : String × String → User → List UserRow → Existing
check_username when u rows =
    if str_eq u.username "" then free else elim (get_user_by_username u.username rows) [
      | none ↦ free
      | some x ↦
          if str_eq x.email u.email
            && str_eq x.display_name u.display_name
            && str_eq x.password_hash u.password_hash
          then same x
          else conflicting (when.0 ^^ ("username " ^^ (u.username ^^ when.1)))
    ]

unfoldable pub check_email : String × String → User → List UserRow → Existing
check_email when u rows =
    if str_eq u.email "" then free else elim (get_user_by_email u.email rows) [
      | none ↦ free
      | some x ↦
          if str_eq x.username u.username
            && str_eq x.display_name u.display_name
            && str_eq x.password_hash u.password_hash
          then same x
          else conflicting (when.0 ^^ ("email " ^^ (u.email ^^ when.1)))
    ]

unfoldable pub check_existing : String × String → User → List UserRow → Existing
check_existing when u rows = elim (check_username when u rows) [
  | free ↦ check_email when u rows
  | same x ↦ same x
  | conflicting msg ↦ conflicting msg
]

-- A failed insert is looked up once more.
unfoldable pub recheck : String → User → List UserRow → Option String × User × List UserRow
recheck msg u rows =
    if contains msg unique_error
    then elim (check_existing after_race u rows) [
      | free ↦ (some msg, u, rows)
      | same x ↦ (none, record u { id = x.id }, rows)
      | conflicting text ↦ (some text, u, rows)
    ]
    else (some msg, u, rows)

unfoldable pub ensure_user : Digest → User → List UserRow → Option String × User × List UserRow
ensure_user d u rows =
    if is_blank u.username && is_blank u.email
    then (some "ensure_user: missing username and email", u, rows)
    else elim (check_existing at_first u rows) [
      | same x ↦ (none, record u { id = x.id }, rows)
      | conflicting text ↦ (some text, u, rows)
      | free ↦
          let (err, nu, rows') = create_user d (record u { id = "" }) rows in
          elim err [
            | none ↦ (none, record u { id = nu.id }, rows')
            | some msg ↦ recheck msg u rows'
          ]
    ]
