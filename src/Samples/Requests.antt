-- ===== src/Samples/Requests.antt =====
-- The theorems on the handlers, at work.
use agenda_distribuida.Prelude.{
  ◌≡◌, refl, none, some, find, ap, str_eq, ◌&&◌, true, String, [], ◌∷◌,
}
use agenda_distribuida.Tables.{Tables}
use agenda_distribuida.Users.{get_user_by_id, update_password}
use agenda_distribuida.Handlers.Accounts.{Credentials, handle_update_password, known_caller}
use agenda_distribuida.Handlers.Passwords.{password, HasShown, account_change-HasShown}
use agenda_distribuida.Samples.{texts_differ}
use agenda_distribuida.Groups.{get_group_by_id}
use agenda_distribuida.Handlers.{done}
use agenda_distribuida.Handlers.Groups.{handle_update_group}
use agenda_distribuida.Handlers.Members.{handle_update_member}
use agenda_distribuida.Handlers.Appointments.{handle_accept_invitation}
use agenda_distribuida.Handlers.Paths.{leader_site, single_site, members_either_way}
use agenda_distribuida.Handlers.Answers.{answers_either_way}
use agenda_distribuida.Handlers.Renaming.{renamed, renaming_depends_on_path}
use agenda_distribuida.Samples.Meetings.{env, agenda, staff}
use agenda_distribuida.Samples.Services.{codec, codec-IsFaithful}

members_either_way_example :
    (handle_update_member (leader_site env codec 7) (some "1") "g" "2" (some (some 9)) agenda).1
    ≡ (handle_update_member (single_site env codec 7) (some "1") "g" "2" (some (some 9)) agenda).1
members_either_way_example =
    (members_either_way env codec 7 (some "1") "g" "2" (some (some 9)) agenda codec-IsFaithful
      ("9", refl) ("0", refl)).0.1

answers_either_way_example :
    (handle_accept_invitation (leader_site env codec 7) (some "2") "a" agenda).1.group_tables
    ≡ (handle_accept_invitation (single_site env codec 7) (some "2") "a" agenda).1.group_tables
answers_either_way_example =
    (answers_either_way env codec 7 (some "2") "a" agenda codec-IsFaithful ("accepted", refl)
      ("declined", refl)).0

renaming_depends_on_path_example :
    (handle_update_group (single_site env codec 7) (some "1") "g" (some ("crew", "")) agenda).0
    ≡ done (renamed "crew" "" staff)
unfolding get_group_by_id find
renaming_depends_on_path_example =
    (renaming_depends_on_path env codec 7 "g" "crew" staff agenda codec-IsFaithful ("crew", refl)
      refl refl refl).1.0

abbrev credentials : Credentials
credentials = record {
  matches = λ hash password. str_eq hash "h" && str_eq password "old";
  hash_password = λ password. some "h2";
  valid_address = λ email. true;
  hash_error = "bcrypt: password length exceeds 72 bytes";
  jwt = record {
    sign = λ key c. some "t";
    sign_error = "key is invalid";
    parse_with_claims = λ key now s. none;
  };
}

abbrev first_hash : Tables → String
first_hash t = elim t.users [ [] ↦ "" | u ∷ us ↦ u.password_hash ]

account_change-HasShown_example : HasShown credentials (some "1") "old" agenda
unfolding handle_update_password known_caller get_user_by_id find update_password
account_change-HasShown_example =
    account_change-HasShown (single_site env codec 7) credentials (some "1")
      (password "old" "newpass") agenda (λ h. texts_differ "h2" "h" refl (ap first_hash h))
