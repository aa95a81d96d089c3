-- ===== src/Handlers/Passwords.antt =====
-- Requests that change an account, and the password that they show.
use agenda_distribuida.Prelude.{
  ℕ, ◌≡◌, ◌≢◌, true, String, Option, some, arith, Option-cases, Bool-cases, inl, inr,
}
use agenda_distribuida.Users.{User, get_user_by_id}
use agenda_distribuida.Tables.{Tables}
use agenda_distribuida.AppointmentService.{Site}
use agenda_distribuida.Handlers.{refused}
use agenda_distribuida.Handlers.Accounts.{
  Credentials, ProfileRequest, caller_id, known_caller, handle_update_profile,
  handle_update_password,
}

-- A change of the profile, or of the current password to a new one.
pub data AccountChange : Type 0 where
  profile : ProfileRequest → AccountChange
  password : String → String → AccountChange

abbrev pub password_in : AccountChange → String
password_in (profile given) = given.current_password
password_in (password current new) = current

-- The tables after the request.
abbrev pub after_request : Site → Credentials → Option String → AccountChange → Tables → Tables
after_request s k caller (profile given) t = (handle_update_profile s k caller (some given) t).1
after_request s k caller (password current new) t =
    (handle_update_password s k caller (some (current, new)) t).1

turned_away :
    (s : Site) (k : Credentials) (caller : Option String) (change : AccountChange) (t : Tables)
    (code : ℕ) (msg : String)
    → known_caller k (caller_id caller) (password_in change) t ≡ (refused code msg, t)
    → after_request s k caller change t ≡ t
unfolding handle_update_profile handle_update_password
turned_away s k caller (profile given) t code msg h = ground (arith, h)
turned_away s k caller (password current new) t code msg h = ground (arith, h)

-- The caller has a row, and has shown its password.
abbrev pub HasShown : Credentials → Option String → String → Tables → Type 0
HasShown k caller pw t =
    (u : User) × (get_user_by_id (caller_id caller) t.users ≡ some u)
    × (k.matches u.password_hash pw ≡ true)

-- A request that changes any table by way of a profile or a password comes from a user that the
-- tables hold, with a password that the hash in that user's row matches.
pub account_change-HasShown :
    (s : Site) (k : Credentials) (caller : Option String) (change : AccountChange) (t : Tables)
    → after_request s k caller change t ≢ t
    → HasShown k caller (password_in change) t
unfolding known_caller
account_change-HasShown s k caller change t moved =
    elim (Option-cases (get_user_by_id (caller_id caller) t.users)) [
      | inl missing ↦
          absurd
            (moved (turned_away s k caller change t 404 "User not found" (ground (arith, missing))))
      | inr (u, here) ↦ elim (Bool-cases (k.matches u.password_hash (password_in change))) [
        | inl shown ↦ (u, here, shown)
        | inr wrong ↦ absurd (
            moved (
              turned_away s k caller change t 401 "Invalid current password"
                (ground (arith, here, wrong))))
      ]
    ]
