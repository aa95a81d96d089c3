-- ===== src/Handlers/Renaming.antt =====
-- A request that renames a group, on a leader and on a node without a log.
use agenda_distribuida.Prelude.{
  ℕ, ◌≡◌, refl, sym, ◌∙◌, false, String, Option, none, some, str_eq, eq_iff, arith, if◌then◌else◌,
  Option-cases, inl, inr, List, [], ◌∷◌, map, find, subst, find_holds,
}
use agenda_distribuida.Groups.{Group, GroupTables, get_group_by_id, update_group}
use agenda_distribuida.RaftGroups.{apply_group_command, apply_group_update, GroupUpdate}
use agenda_distribuida.Messages.{LogEntry}
use agenda_distribuida.Tables.{Tables, Env}
use agenda_distribuida.Payloads.{Codec, IsFaithful}
use agenda_distribuida.RaftApplier.{run}
use agenda_distribuida.DomainPropose.{build, build_group_update}
use agenda_distribuida.DomainPropose.RoundTrip.{group_details}
use agenda_distribuida.Service.{returned}
use agenda_distribuida.GroupService.{update_group_as}
use agenda_distribuida.Handlers.{Reply, done, replicate}
use agenda_distribuida.Handlers.Groups.{handle_update_group, update_group_through_log}
use agenda_distribuida.Handlers.Paths.{Writes, own_applier, leader_site, single_site, replicated}

abbrev pub renamed : String → String → Group → Group
renamed name description g = record g { name = name; description = description }

find-renamed :
    (gid name description : String) (g : Group) (rows : List Group)
    → find (λ r. str_eq r.id gid) rows ≡ some g
    → find
        (λ r. str_eq r.id gid)
        (map (λ r. if str_eq r.id gid then renamed name description r else r) rows)
      ≡ some (renamed name description g)
unfolding find
find-renamed gid name description g [] h = ground (arith, h)
find-renamed gid name description g (r ∷ rows) h =
    ground (arith, find-renamed gid name description g rows, h)

find-id :
    (gid : String) (g : Group) (rows : List Group)
    → find (λ r. str_eq r.id gid) rows ≡ some g
    → g.id ≡ gid
find-id gid g rows h = (eq_iff g.id gid).0 (find_holds (λ r. str_eq r.id gid) rows g h)

group-update :
    (gid name description : String) (g : Group) (t : GroupTables)
    → get_group_by_id gid t ≡ some g
    → get_group_by_id gid (update_group (renamed name description g) t)
      ≡ some (renamed name description g)
unfolding get_group_by_id update_group
group-update gid name description g t known =
    subst
      (λ id.
        find (λ r. str_eq r.id gid)
          (map (λ r. if str_eq r.id id then renamed name description r else r) t.groups)
        ≡ some (renamed name description g))
      (sym (find-id gid g t.groups known)) (find-renamed gid name description g t.groups known)

abbrev pub details : String → Option String → Option String → GroupUpdate
details gid name description = record { group_id = gid; name = name; description = description }

built_update :
    (codec : Codec) (now : ℕ) (gid : String) (name description : Option String)
    → Writes codec.group_update (details gid name description)
    → (e : LogEntry) × (build_group_update codec now gid name description ≡ some e)
unfolding build_group_update build
built_update codec now gid name description total =
    let (s, written) = total in
    elim (Option-cases (build_group_update codec now gid name description)) [
      | inl missing ↦ absurd (ground (arith, missing, written))
      | inr (e, is) ↦ (e, is)
    ]

module _ (env : Env) (codec : Codec) (now : ℕ) (f : IsFaithful codec) where
  renaming_logged :
      (gid name msg : String) (g : Group) (t : Tables)
      → Writes codec.group_update (details gid (some name) none)
      → get_group_by_id gid t.group_tables ≡ some g
      → replicate
          (own_applier env codec now)
          (build_group_update codec now gid (some name) none)
          msg
          t
        ≡ (
          done tt,
          record t { group_tables = update_group (renamed name g.description g) t.group_tables },
        )
  unfolding run apply_group_command apply_group_update
  renaming_logged gid name msg g t total known =
      let (e, is) = built_update codec now gid (some name) none total in
      replicated env codec now (group_details gid (some name) none) e msg t f is
      ∙ ground (arith, known)

  on_leader :
      (gid actor name : String) (g : Group) (t : Tables)
      → Writes codec.group_update (details gid (some name) none)
      → get_group_by_id gid t.group_tables ≡ some g
      → g.creator_id ≡ actor
      → str_eq name "" ≡ false
      → update_group_through_log
          (leader_site env codec now)
          (own_applier env codec now)
          actor
          gid
          name
          ""
          t
        ≡ (
          done (renamed name g.description g),
          record t { group_tables = update_group (renamed name g.description g) t.group_tables },
        )
  unfolding update_group_through_log
  on_leader gid actor name g t total known creator given =
      let r = renaming_logged gid name "failed to replicate group update" g t total known in
      ground (
        arith,
        known,
        creator,
        given,
        r,
        group-update gid name g.description g t.group_tables known,
        eq_iff g.creator_id actor,
      )

  alone :
      (gid actor name : String) (g : Group) (t : Tables)
      → get_group_by_id gid t.group_tables ≡ some g
      → g.creator_id ≡ actor
      → str_eq name "" ≡ false
      → update_group_as env actor gid name "" t
        ≡ returned
            (renamed name "" g)
            (record t { group_tables = update_group (renamed name "" g) t.group_tables })
  unfolding update_group_as
  alone gid actor name g t known creator given =
      ground (arith, known, creator, given, eq_iff g.creator_id actor)

-- The reply and the stored group of a request that renames a group.
abbrev pub Renames : String → Group → Reply Group × Tables → Type 0
Renames gid g (r, t) = (r ≡ done g) × (get_group_by_id gid t.group_tables ≡ some g)

-- The creator of a group renames it by a request without a description: on a leader, whose log is
-- applied at once, the group keeps its old description, in the tables and in the answer; on a node
-- without a log it has none, in the tables and in the answer. The payload can be written, and
-- payloads read back.
pub renaming_depends_on_path :
    (env : Env) (codec : Codec) (now : ℕ) (group_id name : String) (g : Group) (t : Tables)
    → IsFaithful codec
    → Writes codec.group_update (details (env.digest.trim_space group_id) (some name) none)
    → get_group_by_id (env.digest.trim_space group_id) t.group_tables ≡ some g
    → str_eq (env.digest.trim_space group_id) "" ≡ false
    → str_eq name "" ≡ false
    → let gid = env.digest.trim_space group_id in
      let caller = some g.creator_id in
      let request : Option (String × String) = some (name, "") in
      Renames gid
        (renamed name g.description g)
        (handle_update_group (leader_site env codec now) caller group_id request t)
      × Renames gid
          (renamed name "" g)
          (handle_update_group (single_site env codec now) caller group_id request t)
unfolding handle_update_group
renaming_depends_on_path env codec now group_id name g t f total known named given =
    let gid = env.digest.trim_space group_id in
    let led = on_leader env codec now f gid g.creator_id name g t total known refl given in
    let direct = alone env codec now f gid g.creator_id name g t known refl given in
    let stored =
      λ (description : String). group-update gid name description g t.group_tables known in
    (
      ground (arith, named, given, led, stored g.description),
      ground (arith, named, given, direct, stored ""),
    )
