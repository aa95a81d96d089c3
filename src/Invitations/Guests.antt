-- ===== src/Invitations/Guests.antt =====
-- Who is invited to a group's appointment.
use agenda_distribuida.Prelude.{
  ℕ, ◌≡◌, ◌≢◌, sym, ap, ◌∙◌, subst, false, String, Option, none, some, List, [], ◌∷◌, ◌++◌, map,
  ltb, str_eq, if◌then◌else◌, append_assoc, append-nil, arith, Option-cases, inl, inr,
}
use agenda_distribuida.Groups.{
  Group, GroupMember, Appointment, Participant, GroupTables, group_type_non_hierarchical,
  get_group_by_id, get_member_rank, get_group_members,
}
use agenda_distribuida.Notifications.{Notification}
use agenda_distribuida.Appointments.{
  status_pending, status_auto, create_appointment, with_appointment_id,
}
use agenda_distribuida.Tables.{Tables, Env}
use agenda_distribuida.Invitations.{
  invitation_status, invited, invite_note, Invited, stopped, done, invite_members, commit_invited,
  invite_group, create_group_appointment,
}

-- Without ranks all but the owner are asked; with ranks, those above the owner.
abbrev pub guest_status : Group → String → Option ℕ → GroupMember → String
guest_status g owner owner_rank m =
    if str_eq g.group_type group_type_non_hierarchical
    then (if str_eq m.user_id owner then status_auto else status_pending)
    else elim owner_rank [
      | none ↦ status_auto
      | some r ↦ if ltb r m.rank then status_pending else status_auto
    ]

module _ (env : Env) (t : Tables) (g : Group) (a : Appointment) where
  abbrev pub status_for : GroupMember → String
  status_for m = guest_status g a.owner_id (get_member_rank g.id a.owner_id t.group_tables) m

  abbrev pub guest : GroupMember → Participant
  guest m = invited env.digest a m (status_for m)

  abbrev pub note_for : GroupMember → Notification
  note_for m = invite_note env t g.id a m (status_for m)

  status_is :
      (m : GroupMember) (s : String)
      → invitation_status g a.owner_id t.group_tables m ≡ some s
      → s ≡ status_for m
  unfolding invitation_status
  status_is m s h = ground arith

  invite_rest :
      GroupMember
      → List GroupMember
      → List Participant
      → List Participant
      → List Notification
      → String
      → Invited
  invite_rest m ms new parts notes s =
      invite_members env t g a ms (new ++ (invited env.digest a m s ∷ []))
        (parts ++ (invited env.digest a m s ∷ [])) (notes ++ (invite_note env t g.id a m s ∷ []))

  invite_step :
      (m : GroupMember) (ms : List GroupMember) (new parts new' parts' : List Participant)
      (notes notes' : List Notification)
      → invite_members env t g a (m ∷ ms) new parts notes ≡ done new' parts' notes'
      → invite_rest m ms new parts notes (status_for m) ≡ done new' parts' notes'
  unfolding invite_members invite_rest
  invite_step m ms new parts new' parts' notes notes' h =
      elim (Option-cases (invitation_status g a.owner_id t.group_tables m)) [
        | inl unknown ↦ ground (arith, unknown)
        | inr (s, is) ↦
            subst (λ x. invite_rest m ms new parts notes x ≡ done new' parts' notes')
              (status_is m s is) (ground (arith, is))
      ]

  invite_members_lem :
      (ms : List GroupMember) (new parts new' parts' : List Participant)
      (notes notes' : List Notification)
      → invite_members env t g a ms new parts notes ≡ done new' parts' notes'
      → (new' ≡ new ++ map guest ms)
        × (parts' ≡ parts ++ map guest ms)
        × (notes' ≡ notes ++ map note_for ms)
  unfolding invite_members invite_rest
  invite_members_lem [] new parts new' parts' notes notes' h =
      ground (arith, append-nil new, append-nil parts, append-nil notes)
  invite_members_lem (m ∷ ms) new parts new' parts' notes notes' h =
      let rest =
        invite_members_lem ms (new ++ (guest m ∷ [])) (parts ++ (guest m ∷ [])) new' parts'
          (notes ++ (note_for m ∷ [])) notes'
          (invite_step m ms new parts new' parts' notes notes' h) in
      (
        rest.0 ∙ append_assoc new (guest m ∷ []) (map guest ms),
        rest.1 ∙ append_assoc parts (guest m ∷ []) (map guest ms),
        rest.2 ∙ append_assoc notes (note_for m ∷ []) (map note_for ms),
      )

commit_done :
    (t t' : Tables) (inserted : GroupTables) (parts : List Participant) (r : Invited)
    → commit_invited t inserted r ≡ (none, parts, t')
    → (r ≡ done parts t'.group_tables.participants t'.notifications)
      × (t'.group_tables.appointments ≡ inserted.appointments)
unfolding commit_invited
commit_done t t' inserted parts (stopped e made notes) h = absurd (ground arith)
commit_done t t' inserted parts (done new all notes) h = ground arith

invite_known :
    (env : Env) (t : Tables) (gid : String) (g : Group) (a : Appointment) (inserted : GroupTables)
    → get_group_by_id gid t.group_tables ≡ some g
    → invite_group env t gid a inserted
      ≡ commit_invited t inserted (
          invite_members env t g a
            (get_group_members gid t.group_tables)
            []
            t.group_tables.participants
            t.notifications)
unfolding invite_group
invite_known env t gid g a inserted known = ground (arith, known)

created_known :
    (env : Env) (a : Appointment) (t t' : Tables) (gid : String) (parts : List Participant)
    → a.group_id ≡ some gid
    → create_group_appointment env a t ≡ (none, parts, t')
    → invite_group env t gid
        (with_appointment_id env.digest t.users a)
        (create_appointment env.digest t.users a t.group_tables).2
      ≡ (none, parts, t')
unfolding create_group_appointment create_appointment
created_known env a t t' gid parts of_group h = ground (arith, of_group)

created_row :
    (env : Env) (a : Appointment) (t t' : Tables) (gid : String) (parts : List Participant)
    → a.group_id ≡ some gid
    → create_group_appointment env a t ≡ (none, parts, t')
    → (create_appointment env.digest t.users a t.group_tables).2.appointments
      ≡ t.group_tables.appointments
        ++ (record (with_appointment_id env.digest t.users a) { version = 1; deleted = false } ∷ [])
unfolding create_group_appointment create_appointment
created_row env a t t' gid parts of_group h = ground (arith, of_group)

-- A group's appointment that is created without an error has one participant for each member of the
-- group, in their order: in a group without ranks all but the owner are asked, in one with ranks
-- those above the owner, and the others take part at once. The participants come after those that
-- were there, each member gets one notification, after those that were there, and the appointment
-- comes last among the appointments.
pub guests_of_group :
    (env : Env) (a : Appointment) (t t' : Tables) (gid : String) (g : Group)
    (parts : List Participant)
    → a.group_id ≡ some gid
    → get_group_by_id gid t.group_tables ≡ some g
    → create_group_appointment env a t ≡ (none, parts, t')
    → let a' = with_appointment_id env.digest t.users a in
      let members = get_group_members gid t.group_tables in
      (parts ≡ map (guest env t g a') members)
      × (t'.group_tables.participants ≡ t.group_tables.participants ++ parts)
      × (t'.notifications ≡ t.notifications ++ map (note_for env t g a') members)
      × (t'.group_tables.appointments
          ≡ t.group_tables.appointments ++ (record a' { version = 1; deleted = false } ∷ []))
guests_of_group env a t t' gid g parts of_group known h =
    let a' = with_appointment_id env.digest t.users a in
    let inserted = (create_appointment env.digest t.users a t.group_tables).2 in
    let members = get_group_members gid t.group_tables in
    let sent = invite_members env t g a' members [] t.group_tables.participants t.notifications in
    let committed = commit_done t t' inserted parts sent (
      sym (invite_known env t gid g a' inserted known)
      ∙ created_known env a t t' gid parts of_group h) in
    let all =
      invite_members_lem env t g a' members [] t.group_tables.participants parts
        t'.group_tables.participants t.notifications t'.notifications committed.0 in
    (
      all.0,
      all.1 ∙ ap (λ x. t.group_tables.participants ++ x) (sym all.0),
      all.2,
      committed.1 ∙ created_row env a t t' gid parts of_group h,
    )

-- A group's appointment that fails, for whatever reason, leaves every table as it was.
pub failed_invitation :
    (env : Env) (a : Appointment) (t : Tables)
    → (create_group_appointment env a t).0 ≢ none
    → (create_group_appointment env a t).2 ≡ t
unfolding create_group_appointment create_appointment invite_group commit_invited
failed_invitation env a t h = ground arith
