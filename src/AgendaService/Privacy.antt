-- ===== src/AgendaService/Privacy.antt =====
-- What a viewer of a group's agenda may see.
use agenda_distribuida.Prelude.{ℕ, ◌≡◌, ◌≢◌, ◌⊎◌, some, true, false, String}
use agenda_distribuida.Groups.{Appointment, GroupTables}
use agenda_distribuida.Handlers.Appointments.{filter_appointment_for_viewer}
use agenda_distribuida.AgendaService.{outranks, seen_by}

abbrev pub slot : Appointment → String × ℕ × ℕ
slot a = (a.id, a.start_ts, a.end_ts)

abbrev pub IsDiscreet : String → String → GroupTables → Appointment → Type 0
IsDiscreet viewer gid t a =
    (a.owner_id ≡ viewer)
    ⊎ ((outranks gid viewer a.owner_id t ≡ true) ⊎ ((a.title ≡ "Busy") × (a.description ≡ "")))

-- What the handler of an appointment's details shows as it is, and the agenda hides.
abbrev pub HidesShown : String → String → GroupTables → Appointment → Type 0
HidesShown viewer gid t a =
    a.group_id ≡ some gid
    → a.owner_id ≢ viewer
    → outranks gid viewer a.owner_id t ≡ false
    → a.privacy ≢ "freebusy"
    → (filter_appointment_for_viewer a viewer a.group_id t ≡ a)
      × (seen_by viewer gid t a ≡ record a { title = "Busy"; description = "" })
