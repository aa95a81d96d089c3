-- ===== src/AgendaService.antt =====
-- agendaService of services.go: what a viewer sees of an agenda.
pub mod Privacy
use agenda_distribuida.Prelude.{
  ℕ, Bool, true, false, ◌||◌, String, Option, none, some, List, map, str_eq, if◌then◌else◌,
}
use agenda_distribuida.Groups.{Appointment, GroupTables, is_superior}
use agenda_distribuida.Appointments.{get_user_agenda, get_group_agenda}

-- An error of IsSuperior reads as false.
abbrev pub outranks : String → String → String → GroupTables → Bool
outranks gid viewer owner t = elim (is_superior gid viewer owner t) [ none ↦ false | some b ↦ b ]

unfoldable pub seen_by : String → String → GroupTables → Appointment → Appointment
seen_by viewer gid t a =
    if str_eq a.owner_id viewer
    then a
    else if outranks gid viewer a.owner_id t
    then a
    else (record a { title = "Busy"; description = "" })

unfoldable pub get_group_agenda_for_viewer :
    String → String → ℕ → ℕ → GroupTables → List Appointment
get_group_agenda_for_viewer viewer gid start_ts end_ts t =
    map (seen_by viewer gid t) (get_group_agenda gid start_ts end_ts t)

unfoldable pub get_user_agenda_for_viewer : String → ℕ → ℕ → GroupTables → List Appointment
unfolding get_user_agenda
get_user_agenda_for_viewer viewer start_ts end_ts t = get_user_agenda viewer start_ts end_ts t
