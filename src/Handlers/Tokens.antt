-- ===== src/Handlers/Tokens.antt =====
-- The tokens of auth.go: what GenerateToken writes into one, and what ParseToken reads. The package jwt is
-- a parameter. Times are whole seconds.
use agenda_distribuida.Prelude.{ℕ, ◌+◌, ◌≤◌, ◌<◌, ◌≡◌, String, Option, none, some}
use agenda_distribuida.Users.{User}

pub record Claims : Type 0 where
  pub user_id : String
  pub username : String
  pub expires_at : ℕ
  pub issued_at : ℕ

-- SignedString under a key, none for an error, whose text is `sign_error`; ParseWithClaims under a key at
-- a time, none for an error or an invalid token.
pub record Jwt : Type 0 where
  pub sign : String → Claims → Option String
  pub sign_error : String
  pub parse_with_claims : String → ℕ → String → Option Claims

-- What the package documents: a signed token is valid under its key until its expiry, and gives its
-- claims back; from then on it is expired.
pub record IsSound (k : Jwt) : Type 0 where
  pub valid :
      (key : String) (c : Claims) (token : String) (now : ℕ)
      → k.sign key c ≡ some token
      → now < c.expires_at
      → k.parse_with_claims key now token ≡ some c
  pub expired :
      (key : String) (c : Claims) (token : String) (now : ℕ)
      → k.sign key c ≡ some token
      → c.expires_at ≤ now
      → k.parse_with_claims key now token ≡ none

abbrev pub jwt_key : String
jwt_key = "supersecretkey"

-- 24 hours
abbrev pub lifetime : ℕ
lifetime = 86400

unfoldable pub generate_token : Jwt → ℕ → User → Option String
generate_token k now u =
    k.sign jwt_key (record {
      user_id = u.id;
      username = u.username;
      expires_at = now + lifetime;
      issued_at = now;
    })

unfoldable pub parse_token : Jwt → ℕ → String → Option Claims
parse_token k now token = k.parse_with_claims jwt_key now token
