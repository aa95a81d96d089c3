-- ===== src/RaftGroups/Idempotent.antt =====
-- A group's log entry that is applied twice.
use agenda_distribuida.Prelude.{
  ℕ, ◌≡◌, refl, sym, subst, ◌∙◌, ap, true, not, String, Option, none, some, List, [], ◌∷◌, ◌++◌,
  keep, str_eq, eq_iff, arith, if◌then◌else◌, find-append, find-none, any-keep-not, find-map,
  find_holds, any-none, map_again, inl, inr, Option-cases,
}
use agenda_distribuida.Text.{contains, has_prefix, is_blank}
use agenda_distribuida.Ids.{Digest, group_id_from_signature}
use agenda_distribuida.Groups.{
  Group, GroupMember, GroupTables, is_member, get_group_by_id, add_group_member,
  update_group_member, remove_group_member, delete_group, update_group, create_group, with_group_id,
  ensure_group_member,
}
use agenda_distribuida.RaftGroups.{
  GroupCreate, GroupUpdate, GroupCommand, create, update, remove, member_add, member_update,
  member_remove, ensure_member, new_group, given, insert_group, apply_group_create,
  apply_group_update, apply_group_delete, apply_member_remove, apply_group_command,
}

keep-add :
    (new : GroupMember) (ms : List GroupMember)
    → keep
        (λ m. not (is_member new.group_id new.user_id m))
        (keep (λ m. not (is_member new.group_id new.user_id m)) ms ++ (new ∷ []))
      ≡ keep (λ m. not (is_member new.group_id new.user_id m)) ms
keep-add new [] = ground (arith, eq_iff new.group_id new.group_id, eq_iff new.user_id new.user_id)
keep-add new (m ∷ ms) = ground (arith, keep-add new ms)

add_again :
    (g u : String) (rank : ℕ) (by : Option String) (t : GroupTables)
    → add_group_member g u rank by (add_group_member g u rank by t) ≡ add_group_member g u rank by t
unfolding add_group_member
add_again g u rank by t =
    cc (keep-add (record { group_id = g; user_id = u; rank = rank; added_by = by }) t.members)

update_again :
    (g u : String) (rank : ℕ) (t : GroupTables)
    → update_group_member g u rank (update_group_member g u rank t) ≡ update_group_member g u rank t
unfolding update_group_member
update_again g u rank t = cc (
    map_again (λ m. if is_member g u m then (record m { rank = rank }) else m) t.members
      (λ m. ground arith))

member_unknown : contains "member not found in group" "member not found" ≡ true
unfolding contains has_prefix
member_unknown = refl

remove_again :
    (g u : String) (t : GroupTables)
    → apply_member_remove g u (apply_member_remove g u t).1 ≡ apply_member_remove g u t
unfolding apply_member_remove remove_group_member
remove_again g u t = ground (arith, member_unknown, any-keep-not (is_member g u) t.members)

delete_again :
    (g : String) (t : GroupTables)
    → apply_group_delete g (apply_group_delete g t).1 ≡ apply_group_delete g t
unfolding apply_group_delete get_group_by_id delete_group
delete_again g t = ground (
  arith,
  any-keep-not (λ r. str_eq r.id g) t.groups,
  find-none (λ r. str_eq r.id g) (keep (λ r. not (str_eq r.id g)) t.groups),
)

abbrev signature : Digest → GroupCreate → String
signature d p = group_id_from_signature d p.group_type p.creator_user p.name

insert_new :
    (d : Digest) (p : GroupCreate) (t : GroupTables)
    → get_group_by_id (signature d p) t ≡ none
    → ((insert_group d p t).0 ≡ none)
      × (get_group_by_id (signature d p) (insert_group d p t).1
          ≡ some (with_group_id d (new_group p)))
unfolding insert_group get_group_by_id create_group with_group_id add_group_member is_blank
insert_new d p t free = ground (
  arith,
  free,
  any-none (λ r. str_eq r.id (signature d p)) t.groups,
  find-append (λ r. str_eq r.id (signature d p)) t.groups (with_group_id d (new_group p)),
  eq_iff (signature d p) (signature d p),
)

create_again :
    (d : Digest) (p : GroupCreate) (t : GroupTables)
    → apply_group_create d p (apply_group_create d p t).1 ≡ apply_group_create d p t
unfolding apply_group_create
create_again d p t = ground (arith, insert_new d p t)

given_again : (new : Option String) (old : String) → given new (given new old) ≡ given new old
given_again none old = refl
given_again (some new) old = refl

abbrev updated : Group → Group → Group
updated g r =
    if str_eq r.id g.id then (record r { name = g.name; description = g.description }) else r

update_group_again :
    (g : Group) (t : GroupTables) → update_group g (update_group g t) ≡ update_group g t
unfolding update_group
update_group_again g t = cc (map_again (updated g) t.groups (λ r. ground arith))

update_group_found :
    (g r : Group) (t : GroupTables)
    → get_group_by_id g.id t ≡ some r
    → get_group_by_id g.id (update_group g t)
      ≡ some (record r { name = g.name; description = g.description })
unfolding get_group_by_id update_group
update_group_found g r t found = ground (
  arith,
  found,
  find-map (updated g) (λ x. str_eq x.id g.id) t.groups (λ x. ground arith),
  find_holds (λ x. str_eq x.id g.id) t.groups r,
)

abbrev desired : GroupUpdate → Group → Group
desired p g = record g {
  name = given p.name g.name;
  description = given p.description g.description;
}

update_known :
    (no_rows : String) (p : GroupUpdate) (t : GroupTables) (g : Group)
    → get_group_by_id p.group_id t ≡ some g
    → apply_group_update no_rows p t ≡ (none, update_group (desired p g) t)
unfolding apply_group_update
update_known no_rows p t g found = ground (arith, found)

desired_again : (p : GroupUpdate) (g : Group) → desired p (desired p g) ≡ desired p g
desired_again p g = cc (given_again p.name g.name, given_again p.description g.description)

group_id-get :
    (id : String) (t : GroupTables) (g : Group) → get_group_by_id id t ≡ some g → id ≡ g.id
unfolding get_group_by_id
group_id-get id t g found =
    ground (arith, found, find_holds (λ x. str_eq x.id id) t.groups g, eq_iff g.id id)

update_known_again :
    (no_rows : String) (p : GroupUpdate) (t : GroupTables) (g : Group)
    → get_group_by_id p.group_id t ≡ some g
    → apply_group_update no_rows p (update_group (desired p g) t)
      ≡ (none, update_group (desired p g) t)
update_known_again no_rows p t g found =
    let here = group_id-get p.group_id t g found in
    let after =
      subst (λ i. get_group_by_id i (update_group (desired p g) t) ≡ some (desired p g)) (sym here)
        (update_group_found (desired p g) g t
          (subst (λ i. get_group_by_id i t ≡ some g) here found)) in
    update_known no_rows p (update_group (desired p g) t) (desired p g) after
    ∙ ap (λ g'. (none, update_group g' (update_group (desired p g) t))) (desired_again p g)
    ∙ ap (λ t'. (none, t')) (update_group_again (desired p g) t)

update_missing :
    (no_rows : String) (p : GroupUpdate) (t : GroupTables)
    → get_group_by_id p.group_id t ≡ none
    → apply_group_update no_rows p (apply_group_update no_rows p t).1
      ≡ apply_group_update no_rows p t
unfolding apply_group_update
update_missing no_rows p t missing = ground (arith, missing)

update_row_again :
    (no_rows : String) (p : GroupUpdate) (t : GroupTables)
    → apply_group_update no_rows p (apply_group_update no_rows p t).1
      ≡ apply_group_update no_rows p t
update_row_again no_rows p t = elim (Option-cases (get_group_by_id p.group_id t)) [
  | inl missing ↦ update_missing no_rows p t missing
  | inr (g, found) ↦
      let once = update_known no_rows p t g found in
      ap (λ x. apply_group_update no_rows p x.1) once
      ∙ update_known_again no_rows p t g found
      ∙ sym once
]

-- An operation of a log entry on groups or members that is applied again gives the same error or
-- success, and the same tables, as the first time.
pub group_command_again :
    (d : Digest) (no_rows : String) (c : GroupCommand) (t : GroupTables)
    → apply_group_command d no_rows c (apply_group_command d no_rows c t).1
      ≡ apply_group_command d no_rows c t
unfolding apply_group_command ensure_group_member
group_command_again d no_rows (create p) t = create_again d p t
group_command_again d no_rows (update p) t = update_row_again no_rows p t
group_command_again d no_rows (remove g) t = delete_again g t
group_command_again d no_rows (member_add g u rank) t =
    ap (λ t'. (none, t')) (add_again g u rank none t)
group_command_again d no_rows (member_update g u rank) t =
    ap (λ t'. (none, t')) (update_again g u rank t)
group_command_again d no_rows (member_remove g u) t = remove_again g u t
group_command_again d no_rows (ensure_member g u rank) t =
    ap (λ t'. (none, t')) (add_again g u rank none t)
