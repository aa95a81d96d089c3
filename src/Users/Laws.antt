-- ===== src/Users/Laws.antt =====
-- The row that CreateUser inserts, and EnsureUser on it.
use agenda_distribuida.Prelude.{
  ◌≡◌, ◌≢◌, ◌⊎◌, refl, sym, subst, true, false, ◌&&◌, String, none, some, List, [], ◌∷◌, ◌++◌, any,
  str_eq, eq_iff, arith, find-append, find-none,
}
use agenda_distribuida.Text.{contains, has_prefix, is_blank}
use agenda_distribuida.Ids.{Digest, user_id_from_username}
use agenda_distribuida.Users.{
  User, UserRow, unique_error, row_of, clashes, email_is, scan_user, with_id, create_user,
  get_user_by_username, get_user_by_email, ensure_user, recheck, check_existing, check_username,
  check_email, at_first, after_race, free, same,
}

pub unique_recognised : contains unique_error unique_error ≡ true
unfolding contains has_prefix
unique_recognised = refl

-- A row that does not clash with a user has neither the user's name nor the address.
any-clashes :
    (u : User) (rows : List UserRow)
    → any (clashes u) rows ≡ false
    → (any (λ r. str_eq r.username u.username) rows ≡ false) × (any (email_is u.email) rows ≡ false)
unfolding any
any-clashes u [] h = (refl, refl)
any-clashes u (r ∷ rs) h = ground (arith, any-clashes u rs)

pub username-created :
    (u : User) (rows : List UserRow)
    → any (clashes u) rows ≡ false
    → get_user_by_username u.username (rows ++ (row_of u ∷ [])) ≡ some u
unfolding get_user_by_username scan_user
username-created u rows h = ground (
  arith,
  any-clashes u rows h,
  find-none (λ r. str_eq r.username u.username) rows,
  find-append (λ r. str_eq r.username u.username) rows (row_of u),
  eq_iff u.username u.username,
)

pub with_id-username : (d : Digest) (p : User) → (with_id d p).username ≡ p.username
unfolding with_id
with_id-username d p = ground arith

pub with_id-email : (d : Digest) (p : User) → (with_id d p).email ≡ p.email
unfolding with_id
with_id-email d p = ground arith

email-created :
    (u : User) (rows : List UserRow)
    → any (clashes u) rows ≡ false
    → get_user_by_email u.email (rows ++ (row_of u ∷ [])) ≡ some u
unfolding get_user_by_email scan_user
email-created u rows h = ground (
  arith,
  any-clashes u rows h,
  find-none (email_is u.email) rows,
  find-append (email_is u.email) rows (row_of u),
  eq_iff u.email u.email,
)

-- The row that EnsureUser inserts for a user.
abbrev fresh : Digest → User → User
fresh d u = record u { id = user_id_from_username d u.username }

empty-is_blank : (s : String) → s ≡ "" → is_blank s ≡ true
unfolding is_blank
empty-is_blank s e = subst (λ r. is_blank r ≡ true) (sym e) refl

check-created :
    (d : Digest) (u : User) (rows : List UserRow)
    → any (clashes (fresh d u)) rows ≡ false
    → (is_blank u.username && is_blank u.email) ≡ false
    → check_existing at_first u (rows ++ (row_of (fresh d u) ∷ [])) ≡ same (fresh d u)
unfolding check_existing check_username check_email
check-created d u rows h named = ground (
  arith,
  username-created (fresh d u) rows h,
  email-created (fresh d u) rows h,
  eq_iff u.username u.username,
  eq_iff u.email u.email,
  eq_iff u.display_name u.display_name,
  eq_iff u.password_hash u.password_hash,
  eq_iff u.username "",
  eq_iff u.email "",
  empty-is_blank u.username,
  empty-is_blank u.email,
)

free_after_race :
    (u : User) (rows : List UserRow)
    → check_existing at_first u rows ≡ free
    → check_existing after_race u rows ≡ free
unfolding check_existing check_username check_email
free_after_race u rows h = ground arith

clash_by_id :
    (u : User) (rows : List UserRow)
    → any (λ r. str_eq r.id u.id) rows ≡ true
    → any (clashes u) rows ≡ true
unfolding any
clash_by_id u [] h = h
clash_by_id u (r ∷ rs) h = ground (arith, clash_by_id u rs)

insert_refused :
    (d : Digest) (u : User) (rows : List UserRow)
    → (is_blank u.username && is_blank u.email) ≡ false
    → check_existing at_first u rows ≡ free
    → any (clashes (fresh d u)) rows ≡ true
    → ensure_user d u rows ≡ (some unique_error, u, rows)
unfolding ensure_user create_user with_id recheck is_blank
insert_refused d u rows named open_names clash =
    ground (arith, unique_recognised, free_after_race u rows open_names)

insert_done :
    (d : Digest) (u : User) (rows : List UserRow)
    → (is_blank u.username && is_blank u.email) ≡ false
    → check_existing at_first u rows ≡ free
    → any (clashes (fresh d u)) rows ≡ false
    → ensure_user d u rows ≡ (none, fresh d u, rows ++ (row_of (fresh d u) ∷ []))
unfolding ensure_user create_user with_id is_blank
insert_done d u rows named open_names clash = ground arith

ensure_known :
    (d : Digest) (u x : User) (rows : List UserRow)
    → (is_blank u.username && is_blank u.email) ≡ false
    → check_existing at_first u rows ≡ same x
    → ensure_user d u rows ≡ (none, record u { id = x.id }, rows)
unfolding ensure_user
ensure_known d u x rows named known = ground (arith, known)

ensure_unchanged :
    (d : Digest) (u : User) (rows : List UserRow)
    → ((is_blank u.username && is_blank u.email) ≡ true)
      ⊎ ((check_existing at_first u rows ≢ free) ⊎ (any (clashes (fresh d u)) rows ≡ true))
    → (ensure_user d u rows).2 ≡ rows
unfolding ensure_user create_user with_id recheck is_blank
ensure_unchanged d u rows h = ground arith

-- An EnsureUser that is called again gives the same error or success, the same user and the same
-- table as the first time.
pub ensure_user_again :
    (d : Digest) (u : User) (rows : List UserRow)
    → ensure_user d u (ensure_user d u rows).2 ≡ ensure_user d u rows
ensure_user_again d u rows = ground (
  arith,
  ensure_unchanged d u rows,
  insert_done d u rows,
  ensure_known d u (fresh d u) (rows ++ (row_of (fresh d u) ∷ [])),
  check-created d u rows,
)

-- EnsureUser refuses a user whose name and address are free, if the id that it derives from the
-- name is another row's: the table stays as it is.
pub ensure_user_same_id :
    (d : Digest) (u : User) (rows : List UserRow)
    → (is_blank u.username && is_blank u.email) ≡ false
    → check_existing at_first u rows ≡ free
    → any (λ r. str_eq r.id (user_id_from_username d u.username)) rows ≡ true
    → ensure_user d u rows ≡ (some unique_error, u, rows)
ensure_user_same_id d u rows named open_names used =
    insert_refused d u rows named open_names (clash_by_id (fresh d u) rows used)
