-- ===== src/Reconcilers/Users.antt =====
-- reconciler_users.go: users that another node has registered.
use agenda_distribuida.Prelude.{
  Bool, false, ◌&&◌, String, Option, none, some, List, str_eq, if◌then◌else◌,
}
use agenda_distribuida.Text.{is_blank}
use agenda_distribuida.Users.{User, UserRow, get_user_by_username}
use agenda_distribuida.Tables.{Tables}
use agenda_distribuida.Events.{AuditLog}
use agenda_distribuida.DomainPropose.RoundTrip.{Proposal, user_repair}
use agenda_distribuida.Reconcilers.{
  Surroundings, Fetch, Reconciler, reconcile, skip_if, ◌>>=◌, ◌>>◌,
}

-- The texts of a payload; one that is missing is "".
pub record UserPayload : Type 0 where
  pub username : String
  pub email : String
  pub display_name : String
  pub password_hash : String

unfoldable pub already_known : UserPayload → List UserRow → Bool
already_known p users =
    if str_eq p.username "" then false else elim (get_user_by_username p.username users) [
      | none ↦ false
      | some x ↦
          str_eq x.email p.email
          && str_eq x.display_name p.display_name
          && str_eq x.password_hash p.password_hash
    ]

abbrev pub user_in : UserPayload → User
user_in p = record {
  id = "";
  username = p.username;
  email = p.email;
  password_hash = p.password_hash;
  display_name = p.display_name;
}

module _ (decode : String → Option UserPayload) where
  unfoldable pub repair_of_user : AuditLog → Tables → Option Proposal
  repair_of_user entry t = do
    skip_if (str_eq entry.payload "")
    p ← decode entry.payload
    skip_if (is_blank p.username && is_blank p.email)
    skip_if (str_eq p.password_hash "")
    skip_if (already_known p t.users)
    some (user_repair (user_in p))

  -- A tick of StartUserReconciler.
  unfoldable pub user_reconciler : Surroundings → Fetch AuditLog → Reconciler → Reconciler
  user_reconciler s fetch =
      reconcile (λ a. a.occurred_at) repair_of_user s "/cluster/local-audit/users" fetch
