-- ===== src/Reconcilers/Again/Memberships.antt =====
-- Groups and members of an event that is handled again.
use agenda_distribuida.Prelude.{
  ℕ, ◌≡◌, refl, sym, subst, inl, inr, Option, some, String, arith, Option-cases, Bool-cases, str_eq,
}
use agenda_distribuida.Groups.{Group, get_group_by_id, find_group_by_signature}
use agenda_distribuida.RaftGroups.{apply_group_command}
use agenda_distribuida.RaftGroups.Idempotent.{group_command_again}
use agenda_distribuida.Tables.{Tables, Env}
use agenda_distribuida.RaftApplier.{run}
use agenda_distribuida.Events.{Event}
use agenda_distribuida.DomainPropose.RoundTrip.{Proposal, new_group, member_repair}
use agenda_distribuida.Reconcilers.{local_id}
use agenda_distribuida.Groups.{ensure_group_member, add_group_member}
use agenda_distribuida.RaftGroups.{ensure_member}
use agenda_distribuida.Users.{get_user_by_username}
use agenda_distribuida.Reconcilers.Groups.{
  group_in, GroupPayload, MemberEvent, repair_of_group, repair_of_member,
}
use agenda_distribuida.Reconcilers.Again.{after}
use agenda_distribuida.Reconcilers.Again.Accounts.{Steady, Quiet}

group_asked :
    (decode : String → Option GroupPayload) (e : Event) (t t' : Tables) (q : Proposal)
    → t'.users ≡ t.users
    → repair_of_group decode e t ≡ some q
    → ((g : Group) × (q ≡ new_group g)) × Steady (repair_of_group decode e t') q
unfolding repair_of_group
group_asked decode e t t' q same h = elim (Option-cases (decode e.payload)) [
  | inl unread ↦ ground (arith, unread)
  | inr (p, is) ↦ elim (Option-cases (local_id p.creator_username p.creator_id t.users)) [
    | inl unknown ↦ ground (arith, is, unknown)
    | inr (uid, here) ↦ (
      (group_in p uid, ground (arith, is, here)),
      elim (Bool-cases
          (str_eq (find_group_by_signature p.name uid p.group_type t'.group_tables) "")) [
            | inl missing ↦ inr (ground (arith, is, here, same, missing))
            | inr found ↦ inl (ground (arith, is, here, same, found))
          ],
    )
  ]
]

group_after :
    (env : Env) (g : Group) (t : Tables)
    → after env (new_group g) (after env (new_group g) t) ≡ after env (new_group g) t
unfolding run
group_after env g t = cc (group_command_again env.digest env.no_rows _ t.group_tables)

users_after_group :
    (env : Env) (g : Group) (t : Tables) → (after env (new_group g) t).users ≡ t.users
unfolding run
users_after_group env g t = refl

pub group_handled :
    (env : Env) (decode : String → Option GroupPayload) (e : Event) (t : Tables) (q : Proposal)
    → repair_of_group decode e t ≡ some q
    → Quiet env (repair_of_group decode e) q t
group_handled env decode e t q h =
    let ((g, is), steady) = group_asked decode e t t q refl h in
    let asks = subst (λ q. repair_of_group decode e t ≡ some q) is h in
    subst (λ q. Quiet env (repair_of_group decode e) q t) (sym is)
      (
        (group_asked decode e t (after env (new_group g) t) (new_group g)
            (users_after_group env g t) asks).1,
        group_after env g t,
      )

member_asked :
    (decode : String → Option MemberEvent) (e : Event) (t t' : Tables) (q : Proposal)
    → t'.users ≡ t.users
    → t'.group_tables.groups ≡ t.group_tables.groups
    → repair_of_member decode e t ≡ some q
    → ((g : String) × (u : String) × (rank : ℕ) × (q ≡ member_repair g u rank))
      × Steady (repair_of_member decode e t') q
unfolding repair_of_member get_group_by_id
member_asked decode e t t' q same same_groups h = elim (Option-cases (decode e.payload)) [
  | inl unread ↦ ground (arith, unread)
  | inr (p, is) ↦ elim (Option-cases (get_user_by_username p.username t.users)) [
    | inl unknown ↦ ground (arith, is, unknown)
    | inr (u, here) ↦ (
      (p.group_id, u.id, p.rank, ground (arith, is, here)),
      inr (ground (arith, is, here, same, same_groups)),
    )
  ]
]

member_after :
    (env : Env) (g u : String) (rank : ℕ) (t : Tables)
    → after env (member_repair g u rank) (after env (member_repair g u rank) t)
      ≡ after env (member_repair g u rank) t
unfolding run
member_after env g u rank t =
    cc (group_command_again env.digest env.no_rows (ensure_member g u rank) t.group_tables)

kept_by_member :
    (env : Env) (g u : String) (rank : ℕ) (t : Tables)
    → ((after env (member_repair g u rank) t).users ≡ t.users)
      × ((after env (member_repair g u rank) t).group_tables.groups ≡ t.group_tables.groups)
unfolding run apply_group_command ensure_group_member add_group_member
kept_by_member env g u rank t = (refl, refl)

pub member_handled :
    (env : Env) (decode : String → Option MemberEvent) (e : Event) (t : Tables) (q : Proposal)
    → repair_of_member decode e t ≡ some q
    → Quiet env (repair_of_member decode e) q t
member_handled env decode e t q h =
    let ((g, u, rank, is), steady) = member_asked decode e t t q refl refl h in
    let asks = subst (λ q. repair_of_member decode e t ≡ some q) is h in
    let (users, groups) = kept_by_member env g u rank t in
    let q' = member_repair g u rank in
    subst (λ q. Quiet env (repair_of_member decode e) q t) (sym is)
      (
        (member_asked decode e t (after env q' t) q' users groups asks).1,
        member_after env g u rank t,
      )
