-- ===== src/RaftUsers/Idempotent.antt =====
-- A user's log entry that is applied twice.
use agenda_distribuida.Prelude.{◌≡◌, false, none, some, List, [], ◌∷◌, ◌++◌, any, arith, subst}
use agenda_distribuida.Ids.{Digest}
use agenda_distribuida.Users.{
  User, UserRow, row_of, clashes, with_id, create_user, get_user_by_username,
}
use agenda_distribuida.Users.Laws.{username-created, with_id-username}
use agenda_distribuida.RaftUsers.{apply_user_create, insert_user}

insert_again :
    (d : Digest) (p : User) (rows : List UserRow)
    → any (clashes (with_id d p)) rows ≡ false
    → apply_user_create d p (rows ++ (row_of (with_id d p) ∷ []))
      ≡ (none, rows ++ (row_of (with_id d p) ∷ []))
unfolding apply_user_create
insert_again d p rows h =
    let found =
      subst (λ n. get_user_by_username n (rows ++ (row_of (with_id d p) ∷ [])) ≡ some (with_id d p))
        (with_id-username d p) (username-created (with_id d p) rows h) in
    ground (arith, found)

-- A user.create that is applied again gives the same error or success, and the same table, as the
-- first time.
pub user_create_again :
    (d : Digest) (p : User) (rows : List UserRow)
    → apply_user_create d p (apply_user_create d p rows).1 ≡ apply_user_create d p rows
unfolding apply_user_create insert_user create_user
user_create_again d p rows = ground (arith, insert_again d p rows)
