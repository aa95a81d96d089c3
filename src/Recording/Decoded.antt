-- ===== src/Recording/Decoded.antt =====
-- The structs of reconciler_invitations.go and reconciler_appointments.go, filled from the members of a
-- payload by the tags of their fields. `unmarshal` is encoding/json's reading of a text. Members of a
-- kind other than a field's do not occur in these payloads.
use agenda_distribuida.Prelude.{String, Option, none, some, Table, lookup}
use agenda_distribuida.Recording.{Value, text, null, number}
use agenda_distribuida.Reconcilers.Appointments.{ApptPayload}
use agenda_distribuida.Reconcilers.Invitations.{InvitationPayload}

-- A text, if the member is one: null leaves a field as it was.
abbrev pub as_text : Value → Option String
as_text (text s) = some s
as_text null = none
as_text (number n) = none

unfoldable pub pointer_in : String → Table Value → Option String
pointer_in name ms = elim (lookup name ms) [ none ↦ none | some v ↦ as_text v ]

unfoldable pub text_in : String → Table Value → String
unfolding pointer_in
text_in name ms = elim (pointer_in name ms) [ none ↦ "" | some s ↦ s ]

unfoldable pub invitation_payload_in : Table Value → InvitationPayload
unfolding text_in
invitation_payload_in ms = record {
  appointment_id = text_in "appointment_id" ms;
  user_id = text_in "user_id" ms;
  username = text_in "username" ms;
  status = text_in "status" ms;
  appt_owner_username = text_in "appt_owner_username" ms;
  appt_group_id = pointer_in "appt_group_id" ms;
  appt_group_name = text_in "appt_group_name" ms;
  appt_group_creator_username = text_in "appt_group_creator_username" ms;
  appt_group_type = text_in "appt_group_type" ms;
  appt_title = text_in "appt_title" ms;
  appt_start = text_in "appt_start" ms;
  appt_end = text_in "appt_end" ms;
}

unfoldable pub appt_payload_in : Table Value → ApptPayload
unfolding text_in
appt_payload_in ms = record {
  owner_id = text_in "owner_id" ms;
  owner_username = text_in "owner_username" ms;
  group_id = pointer_in "group_id" ms;
  group_name = text_in "group_name" ms;
  group_creator_username = text_in "group_creator_username" ms;
  group_type = text_in "group_type" ms;
  title = text_in "title" ms;
  description = text_in "description" ms;
  start = text_in "start" ms;
  end = text_in "end" ms;
  privacy = text_in "privacy" ms;
}

module _ (unmarshal : String → Option (Table Value)) where
  abbrev pub decode_invitation : String → Option InvitationPayload
  decode_invitation s = elim (unmarshal s) [
    | none ↦ none
    | some ms ↦ some (invitation_payload_in ms)
  ]

  abbrev pub decode_appointment : String → Option ApptPayload
  decode_appointment s = elim (unmarshal s) [ none ↦ none | some ms ↦ some (appt_payload_in ms) ]
