-- ===== src/Handlers/Accounts.antt =====
-- The handlers of http_handlers_scaffold.go on a user's own account: registration, profile, password.
use agenda_distribuida.Prelude.{
  ℕ, ◌/◌, Bool, true, false, not, ◌&&◌, ◌||◌, String, Option, none, some, ltb, str_eq,
  if◌then◌else◌,
}
use agenda_distribuida.Text.{contains}
use agenda_distribuida.Users.{
  User, get_user_by_id, get_user_by_username, get_user_by_email, create_user, update_user,
  update_password,
}
use agenda_distribuida.Tables.{Env}
use agenda_distribuida.DomainPropose.{
  build_user_create, build_user_update_profile, build_user_update_password,
}
use agenda_distribuida.Service.{returned, failed, Service, settle}
use agenda_distribuida.AppointmentService.{Consensus, Site, leading}
use agenda_distribuida.Handlers.Tokens.{Jwt, generate_token}
use agenda_distribuida.Handlers.{
  Handler, ◌>>=◌, ◌>>◌, reply, required, look_up, delegate, refuse_when, replicate,
}

-- Calls of the packages bcrypt and net/mail: whether a hash is that of a password, and the hash of a
-- password, unless there is an error, whose text follows; and the package jwt.
pub record Credentials : Type 0 where
  pub matches : String → String → Bool
  pub hash_password : String → Option String
  pub valid_address : String → Bool
  pub hash_error : String
  pub jwt : Jwt

pub record RegisterRequest : Type 0 where
  pub username : String
  pub password : String
  pub email : String
  pub display_name : String
  pub name : String

abbrev pub is_there : {A : Type 0} → Option A → Bool
is_there none = false
is_there (some a) = true

abbrev pub or_reloaded : {A : Type 0} → A → Option A → A
or_reloaded a none = a
or_reloaded a (some found) = found

unfoldable pub register_through_log : Site → Consensus → User → Handler User
register_through_log s c u = do
  replicate c (build_user_create s.codec s.now u) "failed to replicate user"
  found ← (λ t. reply (get_user_by_username u.username t.users) t)
  reply (or_reloaded u found)

abbrev insert_user_row : Env → User → Service User
insert_user_row env u t =
    let (err, u', rows) = create_user env.digest u t.users in
    elim err [ some e ↦ failed e t | none ↦ returned u' (record t { users = rows }) ]

-- A violated UNIQUE constraint is a conflict with a text of its own.
unfoldable pub register_directly : Env → User → Handler User
register_directly env u t = elim (insert_user_row env u t) [
  | returned u' t' ↦ reply u' t'
  | failed e t' ↦
      if contains e "UNIQUE constraint failed"
      then required 409 "user already exists" none t'
      else required 500 e none t'
]

unfoldable pub handle_register :
    Site → Credentials → Option RegisterRequest → Handler (User × String)
unfolding register_through_log register_directly
handle_register s k body = do
  given ← required 400 s.codec.bad_json body
  let trim = s.env.digest.trim_space
  let username : String = trim given.username
  let email : String = trim given.email
  refuse_when (str_eq username "" || str_eq given.password "") 400
      "username and password are required"
  refuse_when (not (k.valid_address email)) 400 "invalid email"
  hash ← required 500 k.hash_error (k.hash_password given.password)
  let display : String =
      if str_eq (trim given.display_name) "" then trim given.name else trim given.display_name
  refuse_when (str_eq display "") 400 "display_name is required"
  same_name ← (λ t. reply (get_user_by_username username t.users) t)
  refuse_when (is_there same_name) 409 "username already exists"
  same_address ← (λ t. reply (get_user_by_email email t.users) t)
  refuse_when (is_there same_address) 409 "email already exists"
  let u : User = record {
    id = "";
    username = username;
    email = email;
    password_hash = hash;
    display_name = display;
  }
  created ← elim (leading s) [
    | some c ↦ register_through_log s c u
    | none ↦ register_directly s.env u
  ]
  token ← required 500 k.jwt.sign_error (generate_token k.jwt (s.now / 1000000000) created)
  reply (created, token)

pub record ProfileRequest : Type 0 where
  pub display_name : String
  pub username : String
  pub email : String
  pub current_password : String

-- Someone else's row.
abbrev pub is_other : String → Option User → Bool
is_other uid none = false
is_other uid (some u) = not (str_eq u.id uid)

-- The caller's row, once the caller has shown the password.
unfoldable pub known_caller : Credentials → String → String → Handler User
known_caller k uid password = do
  user ← look_up 404 "User not found" (λ t. get_user_by_id uid t.users)
  refuse_when (not (k.matches user.password_hash password)) 401 "Invalid current password"
  reply user

abbrev pub caller_id : Option String → String
caller_id none = ""
caller_id (some uid) = uid

abbrev pub failure : String → ℕ
failure e = 500

unfoldable pub write_profile : Site → String → User → Handler User
write_profile s uid u = elim (leading s) [
  | some c ↦ do
    replicate c (build_user_update_profile s.codec s.now u) "failed to replicate profile update"
    found ← (λ t. reply (get_user_by_id uid t.users) t)
    reply (or_reloaded u found)
  | none ↦ do
    delegate failure
        (λ t. let (err, rows) = update_user u t.users in settle (err, record t { users = rows }))
    reply u
]

unfoldable pub handle_update_profile :
    Site → Credentials → Option String → Option ProfileRequest → Handler User
unfolding known_caller write_profile
handle_update_profile s k caller body = do
  let uid : String = caller_id caller
  given ← required 400 s.codec.bad_json body
  user ← known_caller k uid given.current_password
  refuse_when (not (str_eq given.email "") && not (k.valid_address given.email)) 400
      "Invalid email format"
  same_name ← (λ t. reply (get_user_by_username given.username t.users) t)
  refuse_when (not (str_eq given.username user.username) && is_other uid same_name) 409
      "Username already taken"
  same_address ← (λ t. reply (get_user_by_email given.email t.users) t)
  refuse_when (not (str_eq given.email user.email) && is_other uid same_address) 409
      "Email already in use"
  write_profile s uid (record user {
    display_name = given.display_name;
    username = given.username;
    email = given.email;
  })

-- The body is the current and the new password.
unfoldable pub handle_update_password :
    Site → Credentials → Option String → Option (String × String) → Handler (Unit {0})
unfolding known_caller
handle_update_password s k caller body = do
  let uid : String = caller_id caller
  (current, new) ← required 400 s.codec.bad_json body
  user ← known_caller k uid current
  refuse_when (ltb (s.env.byte_length new) 6) 400 "Password must be at least 6 characters"
  hash ← required 500 "Error hashing password" (k.hash_password new)
  elim (leading s) [
    | some c ↦
        replicate c (build_user_update_password s.codec s.now uid hash)
          "failed to replicate password update"
    | none ↦
        delegate failure (λ t. returned tt (record t { users = update_password uid hash t.users }))
  ]
