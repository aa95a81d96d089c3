-- ===== src/Recording/Unrepaired.antt =====
-- What becomes of the event of a group's meeting at other nodes.
use agenda_distribuida.Prelude.{
  ℕ, true, false, ◌≡◌, refl, Option, none, some, String, [], ◌∷◌, ◌++◌, arith, Table, lookup,
}
use agenda_distribuida.Text.{is_blank}
use agenda_distribuida.Groups.{Appointment}
use agenda_distribuida.Appointments.{with_appointment_id}
use agenda_distribuida.Tables.{Tables, Env}
use agenda_distribuida.Invitations.{create_group_appointment}
use agenda_distribuida.ClusterHttp.Listing.{Layout}
use agenda_distribuida.Events.{Event, Journal, append_event}
use agenda_distribuida.Reconcilers.Appointments.{
  ApptPayload, local_group, group_here, repair_of_appointment,
}
use agenda_distribuida.Recording.{Format, Value}
use agenda_distribuida.Recording.Decoded.{appt_payload_in, text_in, pointer_in, decode_appointment}
use agenda_distribuida.Recording.Meetings.{
  meeting_members, meeting_payload, meeting_event, record_meeting,
}

-- The group's id, and no type, is what the other nodes read.
read_group :
    (l : Layout) (a : Appointment) (gid : String) (t : Tables)
    → ((appt_payload_in (meeting_members l a gid t)).group_id ≡ some gid)
      × ((appt_payload_in (meeting_members l a gid t)).group_type ≡ "")
unfolding appt_payload_in text_in pointer_in lookup meeting_members
read_group l a gid t = (refl, refl)

blank_text : is_blank "" ≡ true
unfolding is_blank
blank_text = refl

-- Without a type no group is found.
typeless :
    (gid name creator : String) (t : Tables)
    → is_blank gid ≡ false
    → local_group is_blank
        (record { id = some gid; name = name; creator_username = creator; type = "" })
        t
      ≡ none
unfolding local_group group_here
typeless gid name creator t given = ground (arith, given, blank_text)

not_repaired :
    (l : Layout) (decode : String → Option ApptPayload) (e : Event) (p : ApptPayload) (gid : String)
    (t : Tables)
    → decode e.payload ≡ some p
    → p.group_id ≡ some gid
    → p.group_type ≡ ""
    → is_blank gid ≡ false
    → repair_of_appointment l decode e t ≡ none
unfolding repair_of_appointment
not_repaired l decode e p gid t reads grouped type given =
    ground (arith, reads, grouped, type, typeless gid p.group_name p.group_creator_username t given)

-- The event of a meeting of `gid`, as it is stored.
abbrev pub stored_meeting :
    Format → Env → ℕ → Appointment → String → Tables → Tables → Journal Event → Event
stored_meeting f env now a gid t t' j = (append_event now (meeting_event f env a gid t t') j).0

module _ (f : Format) (env : Env) (unmarshal : String → Option (Table Value)) (now : ℕ)
    (a : Appointment) (gid : String) (t t' : Tables) (j : Journal Event) where
  -- A meeting that CreateGroupAppointment has made, of a group whose id is not blank, appends one event, as the last one, and for that
  -- event no leader proposes anything, whatever its tables are, if the payload reads back as the
  -- members that were written: group_type is not among them, without which the group is not looked
  -- for.
  pub meeting_not_repaired :
      a.group_id ≡ some gid
      → is_blank gid ≡ false
      → (create_group_appointment env a t).0 ≡ none
      → (create_group_appointment env a t).2 ≡ t'
      → (let a' = with_appointment_id env.digest t.users a in
          unmarshal (meeting_payload f a' gid t') ≡ some (meeting_members f.layout a' gid t'))
      → let e = stored_meeting f env now a gid t t' j in
        ((record_meeting f env now a t j).1.rows ≡ j.rows ++ (e ∷ []))
        × ((other : Tables)
            → repair_of_appointment f.layout (decode_appointment unmarshal) e other ≡ none)
  unfolding record_meeting append_event
  meeting_not_repaired grouped given made left reads =
      let e = stored_meeting f env now a gid t t' j in
      let a' = with_appointment_id env.digest t.users a in
      let ms = meeting_members f.layout a' gid t' in
      let (its_id, its_type) = read_group f.layout a' gid t' in
      (
        cc (grouped, made, left),
        λ other.
            not_repaired f.layout (decode_appointment unmarshal) e (appt_payload_in ms) gid other
              (cc reads) its_id its_type given,
      )
