-- ===== src/Handlers/Sessions.antt =====
-- Who a request comes from: AuthenticateUser and AuthMiddleware of auth.go, authService of services.go, and the login and the middleware of
-- http_handlers_scaffold.go.
pub mod Bearer
use agenda_distribuida.Prelude.{
  ℕ, Bool, not, ◌||◌, String, Option, none, some, List, str_eq, if◌then◌else◌,
}
use agenda_distribuida.Text.{split_at_space}
use agenda_distribuida.Users.{User, UserRow, get_user_by_username}
use agenda_distribuida.GroupService.{unauthorized}
use agenda_distribuida.Handlers.{Reply, Handler, ◌>>=◌, ◌>>◌, reply, required, look_up, refuse_when}
use agenda_distribuida.Handlers.Accounts.{Credentials}
use agenda_distribuida.Handlers.Tokens.{Jwt, Claims, generate_token, parse_token}

-- An error, or the user with a token.
pub data Login : Type 0 where
  rejected : String → Login
  accepted : User → String → Login

abbrev check_password : Credentials → ℕ → String → String → User → Login
check_password k now wrong password u =
    if k.matches u.password_hash password
    then elim (generate_token k.jwt now u) [
      | none ↦ rejected k.jwt.sign_error
      | some t ↦ accepted u t
    ]
    else rejected wrong

-- AuthenticateUser of auth.go
unfoldable pub authenticate_user : Credentials → ℕ → String → String → List UserRow → Login
authenticate_user k now username password users = elim (get_user_by_username username users) [
  | none ↦ rejected "invalid username or password"
  | some u ↦ check_password k now "invalid username or password" password u
]

-- Authenticate of authService
unfoldable pub authenticate : Credentials → ℕ → String → String → List UserRow → Login
authenticate k now username password users = elim (get_user_by_username username users) [
  | none ↦ rejected unauthorized
  | some u ↦ check_password k now unauthorized password u
]

abbrev session : Login → Option (User × String)
session (rejected e) = none
session (accepted u token) = some (u, token)

-- The body has the name and the password.
unfoldable pub handle_login :
    Credentials → ℕ → String → Option (String × String) → Handler (User × String)
unfolding authenticate
handle_login k now bad_json body = do
  given ← required 400 bad_json body
  look_up 401 "invalid credentials" (λ t. session (authenticate k now given.0 given.1 t.users))

-- The package jwt, strings.ToLower and the time of a request.
pub record Session : Type 0 where
  pub jwt : Jwt
  pub to_lower : String → String
  pub now : ℕ

-- The middleware of the routes under /api: the caller's id, from the header Authorization.
unfoldable pub protected : Session → String → Handler String
protected k header = do
  refuse_when (str_eq header "") 401 "missing token"
  parts ← required 401 "invalid authorization header" (split_at_space header)
  refuse_when (not (str_eq (k.to_lower parts.0) "bearer")) 401 "invalid authorization header"
  claims ← required 401 "invalid token" (parse_token k.jwt k.now parts.1)
  reply claims.user_id

abbrev has_space : String → Bool
has_space s = elim (split_at_space s) [ none ↦ Bool.false | some parts ↦ Bool.true ]

-- AuthMiddleware of auth.go: exactly two parts, and a user that is there.
unfoldable pub auth_middleware : Session → String → Handler User
auth_middleware k header = do
  refuse_when (str_eq header "") 401 "Missing Authorization header"
  parts ← required 401 "Invalid Authorization format" (split_at_space header)
  refuse_when (has_space parts.1 || not (str_eq parts.0 "Bearer")) 401
      "Invalid Authorization format"
  claims ← required 401 "Invalid or expired token" (parse_token k.jwt k.now parts.1)
  look_up 401 "User not found" (λ t. get_user_by_username claims.username t.users)
