-- ===== src/Samples/Sessions.antt =====
-- The theorem on logins, at work.
use agenda_distribuida.Prelude.{
  ◌≡◌, if◌then◌else◌, refl, some, none, find, str_eq, ◌&&◌, ◌==◌, ltb, eq_iff, arith, true, ltb→lt,
}
use agenda_distribuida.Users.{get_user_by_username}
use agenda_distribuida.Handlers.{done}
use agenda_distribuida.Handlers.Accounts.{Credentials}
use agenda_distribuida.Handlers.Tokens.{Jwt, Claims, IsSound, generate_token}
use agenda_distribuida.Handlers.Sessions.{authenticate, handle_login, protected}
use agenda_distribuida.Handlers.Sessions.Bearer.{at, bearer, login_opens}
use agenda_distribuida.Samples.Domain.{user}
use agenda_distribuida.Samples.Meetings.{agenda}

-- The claims of ana's login in second 7, the only ones that are signed.
abbrev ana : Claims
ana = record { user_id = "1"; username = "ana"; expires_at = 86407; issued_at = 7 }

abbrev jwt : Jwt
jwt = record {
  sign = λ key c.
      if str_eq c.user_id "1"
        && str_eq c.username "ana"
        && c.expires_at == 86407
        && c.issued_at == 7
      then some "t"
      else none;
  sign_error = "key is invalid";
  parse_with_claims = λ key now s. if ltb now 86407 then some ana else none;
}

jwt-IsSound : IsSound jwt
jwt-IsSound = record {
  valid = λ key c token now h early. ground (arith, eq_iff c.user_id "1", eq_iff c.username "ana");
  expired = λ key c token now h late. ground arith;
}

abbrev credentials : Credentials
credentials = record {
  matches = λ hash password. str_eq password "old";
  hash_password = λ password. some "h2";
  valid_address = λ email. true;
  hash_error = "bcrypt: password length exceeds 72 bytes";
  jwt = jwt;
}

login_opens_example :
    protected (at jwt (λ s. "bearer") 86406) (bearer "t") agenda ≡ (done "1", agenda)
unfolding handle_login authenticate get_user_by_username find generate_token
login_opens_example =
    (login_opens credentials (λ s. "bearer") 7 "EOF" "ana" "old" agenda agenda
        (user "1" "ana" "ana@x") "t" jwt-IsSound refl refl).3
      86406 agenda (ltb→lt 86406 86407 refl)
