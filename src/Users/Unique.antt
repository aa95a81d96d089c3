-- ===== src/Users/Unique.antt =====
-- The columns of users that stay unique.
use agenda_distribuida.Prelude.{
  ◌≡◌, refl, Bool, true, false, not, ◌&&◌, ◌||◌, String, Option, none, some, List, [], ◌∷◌, ◌++◌,
  map, any, str_eq, eq_iff, arith, Bool-cases, inl, inr,
}
use agenda_distribuida.Ids.{Digest}
use agenda_distribuida.Users.{
  User, UserRow, row_of, clashes, email_is, with_id, create_user, taken, set_profile, update_user,
}

abbrev same_email : UserRow → UserRow → Bool
same_email r s = elim r.email [ none ↦ false | some e ↦ email_is e s ]

-- Two rows that share an id, a name or an address.
abbrev collides : UserRow → UserRow → Bool
collides r s = str_eq s.id r.id || str_eq s.username r.username || same_email r s

unfoldable pub distinct : List UserRow → Bool
distinct [] = true
distinct (r ∷ rs) = not (any (collides r) rs) && distinct rs

email_flipped :
    (a : String) (r : UserRow)
    → (elim r.email [ none ↦ false | some e ↦ str_eq a e ]) ≡ email_is a r
email_flipped a r = email_of r.email
  where
    email_of :
        (o : Option String)
        → (elim o as (λ x. Bool) [ none ↦ false | some e ↦ str_eq a e ])
          ≡ (elim o as (λ x. Bool) [ none ↦ false | some e ↦ str_eq e a ])
    email_of none = refl
    email_of (some e) = ground (arith, eq_iff e a, eq_iff a e)

collides-row_of : (u : User) (r : UserRow) → clashes u r ≡ false → collides r (row_of u) ≡ false
collides-row_of u r h = ground (
  arith,
  eq_iff r.id u.id,
  eq_iff u.id r.id,
  eq_iff r.username u.username,
  eq_iff u.username r.username,
  email_flipped u.email r,
)

-- The two rows, the second changed.
collides-second :
    (u : User) (r s : UserRow)
    → str_eq r.id u.id ≡ false
    → taken u r ≡ false
    → collides r s ≡ false
    → collides r (set_profile u s) ≡ false
collides-second u r s other free_r apart =
    ground
      (arith, eq_iff r.username u.username, eq_iff u.username r.username, email_flipped u.email r)

collides-first :
    (u : User) (r s : UserRow)
    → str_eq s.id u.id ≡ false
    → taken u s ≡ false
    → collides r s ≡ false
    → collides (set_profile u r) s ≡ false
collides-first u r s other free_s apart = ground arith

collides-set_profile :
    (u : User) (r s : UserRow)
    → taken u r ≡ false
    → taken u s ≡ false
    → collides r s ≡ false
    → collides (set_profile u r) (set_profile u s) ≡ false
collides-set_profile u r s free_r free_s apart = elim (Bool-cases (str_eq r.id u.id)) [
  | inr other ↦ first_other other
  | inl this ↦ elim (Bool-cases (str_eq s.id u.id)) [
    | inr other ↦ second_other other
    | inl that ↦ both this that
  ]
]
  where
    first_other : str_eq r.id u.id ≡ false → collides (set_profile u r) (set_profile u s) ≡ false
    first_other other = ground (arith, other, collides-second u r s other free_r apart)

    second_other : str_eq s.id u.id ≡ false → collides (set_profile u r) (set_profile u s) ≡ false
    second_other other = ground (arith, other, collides-first u r s other free_s apart)

    both :
        str_eq r.id u.id ≡ true
        → str_eq s.id u.id ≡ true
        → collides (set_profile u r) (set_profile u s) ≡ false
    both this that = ground (arith, eq_iff r.id u.id, eq_iff s.id u.id, eq_iff s.id r.id)

any-append_one :
    (p : UserRow → Bool) (xs : List UserRow) (y : UserRow)
    → any p xs ≡ false
    → p y ≡ false
    → any p (xs ++ (y ∷ [])) ≡ false
unfolding any
any-append_one p [] y none_yet new = ground (arith, new)
any-append_one p (x ∷ xs) y none_yet new = ground (arith, any-append_one p xs y)

distinct-create :
    (u : User) (rows : List UserRow)
    → distinct rows ≡ true
    → any (clashes u) rows ≡ false
    → distinct (rows ++ (row_of u ∷ [])) ≡ true
unfolding distinct any
distinct-create u [] h new = refl
distinct-create u (r ∷ rs) h new =
    ground
      (arith, distinct-create u rs, any-append_one (collides r) rs (row_of u), collides-row_of u r)

or_parts : (a b : Bool) → (a || b) ≡ false → (a ≡ false) × (b ≡ false)
or_parts a b h = ground arith

or_both : (a b : Bool) → a ≡ false → b ≡ false → (a || b) ≡ false
or_both a b ha hb = ground arith

any-collides-map :
    (u : User) (r : UserRow) (rs : List UserRow)
    → taken u r ≡ false
    → any (taken u) rs ≡ false
    → any (collides r) rs ≡ false
    → any (collides (set_profile u r)) (map (set_profile u) rs) ≡ false
unfolding any
any-collides-map u r [] free_r free_rs apart = refl
any-collides-map u r (s ∷ rs) free_r free_rs apart =
    let (free_s, free_rest) = or_parts (taken u s) (any (taken u) rs) free_rs in
    let (apart_s, apart_rest) = or_parts (collides r s) (any (collides r) rs) apart in
    or_both (collides (set_profile u r) (set_profile u s))
      (any (collides (set_profile u r)) (map (set_profile u) rs))
      (collides-set_profile u r s free_r free_s apart_s)
      (any-collides-map u r rs free_r free_rest apart_rest)

distinct-map :
    (u : User) (rows : List UserRow)
    → distinct rows ≡ true
    → any (taken u) rows ≡ false
    → distinct (map (set_profile u) rows) ≡ true
unfolding distinct any
distinct-map u [] h free_rows = refl
distinct-map u (r ∷ rs) h free_rows = ground (arith, distinct-map u rs, any-collides-map u r rs)

map-set_profile_absent :
    (u : User) (rows : List UserRow)
    → any (λ r. str_eq r.id u.id) rows ≡ false
    → map (set_profile u) rows ≡ rows
unfolding any
map-set_profile_absent u [] h = refl
map-set_profile_absent u (r ∷ rs) h = ground (arith, map-set_profile_absent u rs)

-- Where the rows' ids, names and addresses differ from each other, they still do after CreateUser
-- and after UpdateUser, refused or not; NULL addresses may repeat.
pub users_stay_distinct :
    (d : Digest) (u : User) (rows : List UserRow)
    → distinct rows ≡ true
    → (distinct (create_user d u rows).2 ≡ true) × (distinct (update_user u rows).1 ≡ true)
unfolding create_user update_user
users_stay_distinct d u rows h = (
  ground (arith, distinct-create (with_id d u) rows h),
  ground (arith, distinct-map u rows h, map-set_profile_absent u rows),
)
