-- ===== src/Handlers/Sessions/Bearer.antt =====
-- A login, and the requests that are made with its token.

use agenda_distribuida.Prelude.{
  ℕ, ◌+◌, ◌≤◌, ◌<◌, ◌≡◌, ◌≢◌, refl, inl, inr, true, Bool-cases, String, none, some, Option-cases,
  arith, eq_iff,
}
use agenda_distribuida.Text.{split_at_space}
use agenda_distribuida.Users.{User, get_user_by_username}
use agenda_distribuida.Tables.{Tables}
use agenda_distribuida.Handlers.{done, refused}
use agenda_distribuida.Handlers.Accounts.{Credentials}
use agenda_distribuida.Handlers.Tokens.{Jwt, Claims, IsSound, jwt_key, generate_token, parse_token}
use agenda_distribuida.Handlers.Sessions.{Session, authenticate, handle_login, protected}

-- The header that carries a token: "Bearer ", then the token.
abbrev pub bearer : String → String
bearer token = String.◌∷◌ "B" (
    String.◌∷◌ "e"
      (String.◌∷◌ "a" (String.◌∷◌ "r" (String.◌∷◌ "e" (String.◌∷◌ "r" (String.◌∷◌ " " token))))))

split-bearer : (token : String) → split_at_space (bearer token) ≡ some ("Bearer", token)
unfolding split_at_space
split-bearer token = refl

module _ (k : Credentials) (now : ℕ) (name password : String) (t : Tables) (u : User)
    (token : String) where
  -- What a login that goes through has found.
  login_found :
      (bad_json : String) (t' : Tables)
      → handle_login k now bad_json (some (name, password)) t ≡ (done (u, token), t')
      → (get_user_by_username name t.users ≡ some u)
        × (k.matches u.password_hash password ≡ true)
        × (generate_token k.jwt now u ≡ some token)
        × (t' ≡ t)
  unfolding handle_login authenticate
  login_found bad_json t' h = elim (Option-cases (get_user_by_username name t.users)) [
    | inl unknown ↦ ground (arith, h, unknown)
    | inr (x, here) ↦ elim (Bool-cases (k.matches x.password_hash password)) [
      | inr other ↦ ground (arith, h, here, other)
      | inl same ↦ elim (Option-cases (generate_token k.jwt now x)) [
        | inl unsigned ↦ ground (arith, h, here, same, unsigned)
        | inr (s, written) ↦ ground (arith, h, here, same, written)
      ]
    ]
  ]

bearer_text : (token : String) → bearer token ≢ ""
bearer_text token h = cc h

abbrev pub at : Jwt → (String → String) → ℕ → Session
at jwt to_lower now = record { jwt = jwt; to_lower = to_lower; now = now }

module _ (jwt : Jwt) (to_lower : String → String) (token : String) (now : ℕ) (t : Tables)
    (lower : to_lower "Bearer" ≡ "bearer") where
  accepted_token :
      (claims : Claims)
      → parse_token jwt now token ≡ some claims
      → protected (at jwt to_lower now) (bearer token) t ≡ (done claims.user_id, t)
  unfolding protected
  accepted_token claims reads = ground (
    arith,
    lower,
    reads,
    split-bearer token,
    bearer_text token,
    eq_iff (bearer token) "",
    eq_iff (to_lower "Bearer") "bearer",
  )

  refused_token :
      parse_token jwt now token ≡ none
      → protected (at jwt to_lower now) (bearer token) t ≡ (refused 401 "invalid token", t)
  unfolding protected
  refused_token reads = ground (
    arith,
    lower,
    reads,
    split-bearer token,
    bearer_text token,
    eq_iff (bearer token) "",
    eq_iff (to_lower "Bearer") "bearer",
  )

-- A login that goes through is that of a user in the tables, whose hash the password matches, and
-- changes no table. A request under /api that carries its token is that user's if it comes less than
-- 24 hours after the login, and is refused with status 401 from then on. The package jwt keeps what
-- it documents, and ToLower makes "bearer" of "Bearer".
pub login_opens :
    (k : Credentials) (to_lower : String → String) (now : ℕ) (bad_json name password : String)
    (t t' : Tables) (u : User) (token : String)
    → IsSound k.jwt
    → to_lower "Bearer" ≡ "bearer"
    → handle_login k now bad_json (some (name, password)) t ≡ (done (u, token), t')
    → (get_user_by_username name t.users ≡ some u)
      × (k.matches u.password_hash password ≡ true)
      × (t' ≡ t)
      × ((later : ℕ) (tables : Tables)
          → later < now + 86400
          → protected (at k.jwt to_lower later) (bearer token) tables ≡ (done u.id, tables))
      × ((later : ℕ) (tables : Tables)
          → now + 86400 ≤ later
          → protected (at k.jwt to_lower later) (bearer token) tables
            ≡ (refused 401 "invalid token", tables))
unfolding generate_token parse_token
login_opens k to_lower now bad_json name password t t' u token sound lower h =
    let (here, same, signed, still) = login_found k now name password t u token bad_json t' h in
    let claims : Claims = record {
      user_id = u.id;
      username = u.username;
      expires_at = now + 86400;
      issued_at = now;
    } in
    (
      here,
      same,
      still,
      λ later tables early.
          accepted_token k.jwt to_lower token later tables lower claims
            (sound.valid jwt_key claims token later signed early),
      λ later tables late.
          refused_token k.jwt to_lower token later tables lower
            (sound.expired jwt_key claims token later signed late),
    )
