-- ===== src/Groups/Deletion.antt =====
-- What DeleteGroup leaves.
use agenda_distribuida.Prelude.{
  ◌≡◌, false, not, String, none, List, [], ◌∷◌, keep, find, any, str_eq, eq_iff, arith,
  if◌then◌else◌, any-keep-not,
}
use agenda_distribuida.Groups.{
  Group, GroupMember, GroupTables, is_member, in_group, of_group, get_group_by_id, get_member_rank,
  delete_group,
}

find-other_groups :
    (g h v : String) (ms : List GroupMember)
    → find (is_member h v) (keep (λ m. not (str_eq m.group_id g)) ms)
      ≡ (if str_eq g h then none else find (is_member h v) ms)
unfolding find
find-other_groups g h v [] = ground arith
find-other_groups g h v (m ∷ ms) =
    ground (arith, find-other_groups g h v ms, eq_iff m.group_id g, eq_iff m.group_id h, eq_iff g h)

find-other_ids :
    (g h : String) (gs : List Group)
    → find (λ r. str_eq r.id h) (keep (λ r. not (str_eq r.id g)) gs)
      ≡ (if str_eq g h then none else find (λ r. str_eq r.id h) gs)
unfolding find
find-other_ids g h [] = ground arith
find-other_ids g h (r ∷ rs) =
    ground (arith, find-other_ids g h rs, eq_iff r.id g, eq_iff r.id h, eq_iff g h)

-- After DeleteGroup the group is not found, no user has a rank in it, and neither an appointment of
-- it nor a participant of one is left; the other groups and the ranks in them are as before.
delete_group_lem :
    (g : String) (t : GroupTables) (h v : String)
    → (get_group_by_id h (delete_group g t) ≡ (if str_eq g h then none else get_group_by_id h t))
      × (get_member_rank h v (delete_group g t)
          ≡ (if str_eq g h then none else get_member_rank h v t))
      × (any (in_group g) (delete_group g t).appointments ≡ false)
      × (any (of_group g t) (delete_group g t).participants ≡ false)
unfolding get_member_rank get_group_by_id delete_group
delete_group_lem g t h v = (
  find-other_ids g h t.groups,
  ground (arith, find-other_groups g h v t.members),
  any-keep-not (in_group g) t.appointments,
  any-keep-not (of_group g t) t.participants,
)
