-- ===== src/GroupService/Ranks.antt =====
-- Whose rank a member may change, and to what.
use agenda_distribuida.Prelude.{
  ℕ, ◌<◌, ◌≡◌, ◌≢◌, ap, true, false, ◌&&◌, String, Option, none, some, leb, str_eq, eq_iff, arith,
  Option-cases, Bool-cases, inl, inr,
}
use agenda_distribuida.Groups.{get_member_rank, update_group_member}
use agenda_distribuida.Groups.Laws.{update_group_member_lem, remove_group_member_lem}
use agenda_distribuida.Tables.{Tables}
use agenda_distribuida.Service.{returned, Service, left_by}
use agenda_distribuida.GroupService.{update_member, remove_member}

-- A call on a member: UpdateMember with a rank, RemoveMember without one.
abbrev pub change_member : Option ℕ → String → String → String → Service (Unit {0})
change_member (some rank) actor gid uid = update_member actor gid uid rank
change_member none actor gid uid = remove_member actor gid uid

unranked_actor :
    (change : Option ℕ) (actor gid uid : String) (t : Tables)
    → get_member_rank gid actor t.group_tables ≡ none
    → left_by (change_member change actor gid uid t) ≡ t
unfolding update_member remove_member
unranked_actor (some rank) actor gid uid t h = ground (arith, h)
unranked_actor none actor gid uid t h = ground (arith, h)

unranked_target :
    (change : Option ℕ) (actor gid uid : String) (t : Tables)
    → get_member_rank gid uid t.group_tables ≡ none
    → left_by (change_member change actor gid uid t) ≡ t
unfolding update_member remove_member
unranked_target (some rank) actor gid uid t h = ground (arith, h)
unranked_target none actor gid uid t h = ground (arith, h)

not_above :
    (change : Option ℕ) (actor gid uid : String) (t : Tables) (ra rb : ℕ)
    → get_member_rank gid actor t.group_tables ≡ some ra
    → get_member_rank gid uid t.group_tables ≡ some rb
    → leb ra rb ≡ true
    → left_by (change_member change actor gid uid t) ≡ t
unfolding update_member remove_member
not_above (some rank) actor gid uid t ra rb ha hb h = ground (arith, ha, hb)
not_above none actor gid uid t ra rb ha hb h = ground (arith, ha, hb)

other_member :
    (change : Option ℕ) (actor gid uid : String) (t : Tables) (h v : String)
    → (str_eq gid h && str_eq uid v) ≡ false
    → get_member_rank h v (left_by (change_member change actor gid uid t)).group_tables
      ≡ get_member_rank h v t.group_tables
unfolding update_member remove_member
other_member (some rank) actor gid uid t h v other =
    ground (arith, update_group_member_lem gid uid rank t.group_tables h v)
other_member none actor gid uid t h v other =
    ground (arith, remove_group_member_lem gid uid t.group_tables h v)

-- The target, and a rank of the actor above the target's.
abbrev pub MayChange : String → String → String → Tables → String → String → Type 0
MayChange actor gid uid t h v =
    (ra : ℕ) × (rb : ℕ) × (gid ≡ h)
    × (uid ≡ v)
    × (get_member_rank gid actor t.group_tables ≡ some ra)
    × (get_member_rank gid uid t.group_tables ≡ some rb)
    × (rb < ra)

-- Where UpdateMember or RemoveMember changes a rank, it is that of the member it names, and the
-- actor's rank in that group was above it.
pub rank_change_needs_rank :
    (change : Option ℕ) (actor gid uid : String) (t : Tables) (h v : String)
    → get_member_rank h v (left_by (change_member change actor gid uid t)).group_tables
      ≢ get_member_rank h v t.group_tables
    → MayChange actor gid uid t h v
rank_change_needs_rank change actor gid uid t h v moved =
    elim (Option-cases (get_member_rank gid actor t.group_tables)) [
      | inl unranked ↦ absurd (kept (unranked_actor change actor gid uid t unranked))
      | inr (ra, ha) ↦ elim (Option-cases (get_member_rank gid uid t.group_tables)) [
        | inl unranked ↦ absurd (kept (unranked_target change actor gid uid t unranked))
        | inr (rb, hb) ↦ elim (Bool-cases (leb ra rb)) [
          | inl low ↦ absurd (kept (not_above change actor gid uid t ra rb ha hb low))
          | inr above ↦ elim (Bool-cases (str_eq gid h && str_eq uid v)) [
            | inr other ↦ absurd (moved (other_member change actor gid uid t h v other))
            | inl this ↦ (
              ra,
              rb,
              ground (arith, eq_iff gid h),
              ground (arith, eq_iff uid v),
              ha,
              hb,
              ground arith,
            )
          ]
        ]
      ]
    ]
  where
    kept : left_by (change_member change actor gid uid t) ≡ t → ⊥
    kept same = moved (ap (λ x. get_member_rank h v x.group_tables) same)

-- An actor whose rank is above a member's may give that member any rank, also one above the actor's
-- own.
pub promotion_without_bound :
    (actor gid uid : String) (rank : ℕ) (t : Tables) (ra rb : ℕ)
    → get_member_rank gid actor t.group_tables ≡ some ra
    → get_member_rank gid uid t.group_tables ≡ some rb
    → rb < ra
    → (update_member actor gid uid rank t
        ≡ returned tt (record t { group_tables = update_group_member gid uid rank t.group_tables }))
      × (get_member_rank gid uid (left_by (update_member actor gid uid rank t)).group_tables
          ≡ some rank)
unfolding update_member
promotion_without_bound actor gid uid rank t ra rb ha hb below = (
  ground (arith, ha, hb),
  ground (
    arith,
    ha,
    hb,
    update_group_member_lem gid uid rank t.group_tables gid uid,
    eq_iff gid gid,
    eq_iff uid uid,
  ),
)
