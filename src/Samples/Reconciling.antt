-- ===== src/Samples/Reconciling.antt =====
-- The theorems on the reconcilers, at work.

use agenda_distribuida.Prelude.{
  ℕ, zero, suc, ◌-◌, ◌*◌, ◌/◌, ◌<◌, ◌≡◌, ◌⊎◌, refl, ap, true, String, none, some, List, [], ◌∷◌,
  All, any, Bool, keep, ◌≤◌, lookup, leb→le, arith, ◌==◌, find,
}
use agenda_distribuida.Text.{is_blank}
use agenda_distribuida.Users.{get_user_by_username}
use agenda_distribuida.Groups.{Participant, find_group_by_signature}
use agenda_distribuida.Appointments.{
  get_participant_by_appointment_and_user, find_appointment_by_signature, last_match,
}
use agenda_distribuida.Tables.{Tables}
use agenda_distribuida.Events.{Event, AuditLog, selects_audit, selects_event}
use agenda_distribuida.ClusterHttp.Listing.{Layout, IsRfc3339, whole_seconds}
use agenda_distribuida.Handlers.Paths.{own_applier}
use agenda_distribuida.Reconcilers.{newest_of, cursor_of}
use agenda_distribuida.Reconcilers.Appointments.{local_group, group_here}
use agenda_distribuida.Reconcilers.Invitations.{InvitationPayload, local_appointment}
use agenda_distribuida.Reconcilers.Again.Reports.{of_answer, Decoders, handle_report, report_again}
use agenda_distribuida.Reconcilers.Cursor.{events_asked, event_filter, moved, events_not_skipped}
use agenda_distribuida.Reconcilers.Missed.{audit_asked, cursors_after, skipped_for_good}
use agenda_distribuida.Reconcilers.Registrations.{registrations_missed}
use agenda_distribuida.Reconcilers.Replayed.{replayed_answer_wins}
use agenda_distribuida.Samples.Domain.{user}
use agenda_distribuida.Samples.Meetings.{env, agenda}
use agenda_distribuida.Samples.Services.{codec, codec-IsFaithful}

-- A time's text has one letter for each second.
unfoldable pub letters : ℕ → String
letters zero = "."
letters (suc n) = String.◌∷◌ "s" (letters n)

unfoldable pub size : String → ℕ
size String.[] = 0
size (String.◌∷◌ c s) = suc (size s)

size-letters : (n : ℕ) → size (letters n) ≡ suc n
unfolding size letters
size-letters zero = refl
size-letters (suc n) = ap suc (size-letters n)

one_less : (n : ℕ) → size (letters n) - 1 ≡ n
one_less n = omega (arith, size-letters n)

abbrev pub layout : Layout
layout = record {
  format = λ t. letters (t / 1000000000);
  parse = λ s. some ((size s - 1) * 1000000000);
}

pub layout-IsRfc3339 : IsRfc3339 layout
unfolding size
layout-IsRfc3339 = record {
  reads_back = λ t. ap (λ n. some (n * 1000000000)) (one_less (t / 1000000000));
  is_text = λ t h. ground (arith, size-letters (t / 1000000000), ap size h);
}

-- eva has accepted ana's invitation to the plan, on another node.
abbrev accepted : InvitationPayload
accepted = record {
  appointment_id = "x";
  user_id = "y";
  username = "eva";
  status = "accepted";
  appt_owner_username = "ana";
  appt_group_id = some "z";
  appt_group_name = "staff";
  appt_group_creator_username = "ana";
  appt_group_type = "hierarchical";
  appt_title = "plan";
  appt_start = letters 100;
  appt_end = letters 200;
}

abbrev decoders : Decoders
decoders = record {
  user = λ s. none;
  group = λ s. none;
  member = λ s. none;
  appointment = λ s. none;
  invitation = λ s. some accepted;
  notification = λ s. none;
}

abbrev event : ℕ → ℕ → Event
event id time = record {
  id = id;
  entity = "invitation";
  entity_id = "x";
  action = "status_change";
  payload = "{}";
  created_at = time;
  origin_node = "b";
  version = 1;
}

abbrev once : Tables
once =
    handle_report layout decoders codec (own_applier env codec 0) 1 (of_answer (event 1 5)) agenda

report_again_example :
    handle_report layout decoders codec (own_applier env codec 0) 2 (of_answer (event 1 5)) once
    ≡ once
report_again_example =
    report_again env layout decoders codec 1 2 (of_answer (event 1 5)) agenda codec-IsFaithful

abbrev pub invitee : Participant
invitee = record {
  id = "p";
  appointment_id = "a";
  user_id = "2";
  status = "pending";
  is_optional = Bool.false;
}

replayed_answer_wins_example :
    (y : Participant) × (get_participant_by_appointment_and_user "a" "2" once.group_tables ≡ some y)
    × (y.status ≡ "accepted")
unfolding get_user_by_username find get_participant_by_appointment_and_user local_appointment
    local_group group_here find_group_by_signature find_appointment_by_signature last_match size
    letters is_blank
replayed_answer_wins_example =
    replayed_answer_wins env layout decoders.invitation codec 1 (event 1 5) agenda accepted
      (user "2" "eva" "") "a" invitee
      (record {
        has_payload = refl;
        decoded = refl;
        has_name = refl;
        user = refl;
        appointment = refl;
        participant = refl;
      })
      codec-IsFaithful ("accepted", refl)

abbrev recorded : List Event
recorded = event 1 1000000000 ∷ event 2 3000000000 ∷ event 3 2000000000 ∷ []

abbrev found : List Event
found = events_asked layout "invitation" "status_change" 0 recorded

events_not_skipped_example :
    All
      (λ e.
        (any (λ x. x.id == e.id) found ≡ true)
        ⊎ (selects_event
              (event_filter layout "invitation" "status_change"
                (cursor_of "b" (moved (λ e. e.created_at) "b" found [])))
              e
            ≡ true))
      (keep (selects_event (event_filter layout "invitation" "status_change" 0)) recorded)
unfolding cursor_of lookup
events_not_skipped_example =
    events_not_skipped layout "b" "invitation" "status_change" [] recorded layout-IsRfc3339

abbrev ask : ℕ → List Event → List Event
ask = events_asked layout "invitation" "status_change"

skipped_for_good_example :
    All
      (λ e. whole_seconds (newest_of (λ e. e.created_at) 0 found) ≤ e.created_at)
      (ask
        (cursor_of "b" (cursors_after (λ e. e.created_at) ask "b" [] (recorded ∷ recorded ∷ [])))
        recorded)
unfolding cursor_of lookup
skipped_for_good_example =
    skipped_for_good layout "b" "invitation" "status_change" [] recorded (recorded ∷ []) recorded
      layout-IsRfc3339

abbrev registration : ℕ → AuditLog
registration time = record {
  id = 1;
  component = "auth";
  action = "register";
  level = "info";
  message = "user registered";
  actor_id = none;
  request_id = "";
  node_id = "b";
  payload = "{}";
  occurred_at = time;
}

unfoldable others : ℕ → List AuditLog
others zero = []
others (suc n) = registration 2000000000 ∷ others n

abbrev registered : List AuditLog
registered = registration 1000000000 ∷ others 100

registrations_missed_example :
    All (λ b. 1000000000 < b.occurred_at) (audit_asked layout 0 registered)
unfolding others selects_audit cursor_of lookup
registrations_missed_example =
    (registrations_missed layout (registration 1000000000) "b" [] registered [] registered
      layout-IsRfc3339 (leb→le 100 _ refl)).0
