-- ===== src/Groups/Laws.antt =====
-- What the operations on members and groups do to every lookup.
use agenda_distribuida.Prelude.{
  ℕ, ◌≡◌, refl, true, false, not, ◌&&◌, String, Option, none, some, List, [], ◌∷◌, ◌++◌, keep, find,
  any, str_eq, eq_iff, arith, if◌then◌else◌, find-none, any-keep-not, find-map, find_holds,
  any-none, keep_all,
}
use agenda_distribuida.Groups.{
  GroupMember, GroupTables, is_member, of_group, get_member_rank, add_group_member,
  update_group_member, remove_group_member,
}

-- The row of a member among the rows after a new row has replaced one.
find-replaced :
    (new : GroupMember) (h v : String) (ms : List GroupMember)
    → find (is_member h v) (keep (λ m. not (is_member new.group_id new.user_id m)) ms ++ (new ∷ []))
      ≡ (if is_member h v new then some new else find (is_member h v) ms)
unfolding find
find-replaced new h v [] = refl
find-replaced new h v (m ∷ ms) = ground (
  arith,
  find-replaced new h v ms,
  eq_iff m.group_id new.group_id,
  eq_iff m.user_id new.user_id,
  eq_iff m.group_id h,
  eq_iff m.user_id v,
  eq_iff new.group_id h,
  eq_iff new.user_id v,
)

-- AddGroupMember sets the rank of its member, there before or not, and no other rank.
pub add_group_member_lem :
    (g u : String) (rank : ℕ) (by : Option String) (t : GroupTables) (h v : String)
    → get_member_rank h v (add_group_member g u rank by t)
      ≡ (if str_eq g h && str_eq u v then some rank else get_member_rank h v t)
unfolding get_member_rank add_group_member
add_group_member_lem g u rank by t h v =
    let new : GroupMember = record { group_id = g; user_id = u; rank = rank; added_by = by } in
    ground (arith, find-replaced new h v t.members)

abbrev re_rank : String → String → ℕ → GroupMember → GroupMember
re_rank g u rank m = if is_member g u m then (record m { rank = rank }) else m

is_member-re_rank :
    (g u : String) (rank : ℕ) (h v : String) (m : GroupMember)
    → is_member h v (re_rank g u rank m) ≡ is_member h v m
is_member-re_rank g u rank h v m = ground arith

abbrev rank_of : Option GroupMember → Option ℕ
rank_of none = none
rank_of (some m) = some m.rank

abbrev re_ranked : String → String → ℕ → Option GroupMember → Option GroupMember
re_ranked g u rank none = none
re_ranked g u rank (some m) = some (re_rank g u rank m)

abbrev rank_after : String → String → ℕ → String → String → Option GroupMember → Option ℕ
rank_after g u rank h v none = none
rank_after g u rank h v (some m) = if str_eq g h && str_eq u v then some rank else some m.rank

rank_of-re_ranked :
    (g u : String) (rank : ℕ) (h v : String) (o : Option GroupMember)
    → ((m : GroupMember) → o ≡ some m → is_member h v m ≡ true)
    → rank_of (re_ranked g u rank o) ≡ rank_after g u rank h v o
rank_of-re_ranked g u rank h v none holds = refl
rank_of-re_ranked g u rank h v (some m) holds = ground (
  arith,
  holds m refl,
  eq_iff m.group_id g,
  eq_iff m.user_id u,
  eq_iff m.group_id h,
  eq_iff m.user_id v,
  eq_iff g h,
  eq_iff u v,
)

-- UpdateGroupMember changes the rank of its member, if it is there, and no other rank.
pub update_group_member_lem :
    (g u : String) (rank : ℕ) (t : GroupTables) (h v : String)
    → get_member_rank h v (update_group_member g u rank t) ≡ (elim (get_member_rank h v t) [
      | none ↦ none
      | some r ↦ if str_eq g h && str_eq u v then some rank else some r
    ])
unfolding get_member_rank update_group_member
update_group_member_lem g u rank t h v = ground (
  arith,
  find-map (re_rank g u rank) (is_member h v) t.members (is_member-re_rank g u rank h v),
  rank_of-re_ranked g u rank h v (find (is_member h v) t.members)
      (find_holds (is_member h v) t.members),
)

find-removed :
    (g u h v : String) (ms : List GroupMember)
    → find (is_member h v) (keep (λ m. not (is_member g u m)) ms)
      ≡ (if str_eq g h && str_eq u v then none else find (is_member h v) ms)
unfolding find
find-removed g u h v [] = ground arith
find-removed g u h v (m ∷ ms) = ground (
  arith,
  find-removed g u h v ms,
  eq_iff m.group_id g,
  eq_iff m.user_id u,
  eq_iff m.group_id h,
  eq_iff m.user_id v,
  eq_iff g h,
  eq_iff u v,
)

-- RemoveGroupMember fails exactly if the user has no rank in the group. Afterwards the user has no
-- rank in it and every other rank is as before, and where it did not fail, no participant of the
-- user in an appointment of the group is left; where it failed, there is one if there was one.
pub remove_group_member_lem :
    (g u : String) (t : GroupTables) (h v : String)
    → ((remove_group_member g u t).0 ≡ (elim (get_member_rank g u t) [
      | none ↦ some "member not found in group"
      | some r ↦ none
    ]))
      × (get_member_rank h v (remove_group_member g u t).1
          ≡ (if str_eq g h && str_eq u v then none else get_member_rank h v t))
      × (any (λ p. str_eq p.user_id u && of_group g t p) (remove_group_member g u t).1.participants
          ≡ (elim (get_member_rank g u t) [
            | none ↦ any (λ p. str_eq p.user_id u && of_group g t p) t.participants
            | some r ↦ false
          ]))
unfolding remove_group_member get_member_rank
remove_group_member_lem g u t h v = ground (
  arith,
  find-removed g u h v t.members,
  find-none (is_member g u) t.members,
  any-none (is_member g u) t.members,
  keep_all (is_member g u) t.members,
  any-keep-not (λ p. str_eq p.user_id u && of_group g t p) t.participants,
)
