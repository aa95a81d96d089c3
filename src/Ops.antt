-- ===== src/Ops.antt =====
-- The operation names of raft_apply.go.
use agenda_distribuida.Prelude.{String}

abbrev pub op_appt_create_personal : String
op_appt_create_personal = "appointment.create_personal"

abbrev pub op_appt_create_group : String
op_appt_create_group = "appointment.create_group"

abbrev pub op_appt_update : String
op_appt_update = "appointment.update"

abbrev pub op_appt_delete : String
op_appt_delete = "appointment.delete"

abbrev pub op_user_create : String
op_user_create = "user.create"

abbrev pub op_user_update_profile : String
op_user_update_profile = "user.update_profile"

abbrev pub op_user_update_password : String
op_user_update_password = "user.update_password"

abbrev pub op_group_create : String
op_group_create = "group.create"

abbrev pub op_group_update : String
op_group_update = "group.update"

abbrev pub op_group_delete : String
op_group_delete = "group.delete"

abbrev pub op_group_member_add : String
op_group_member_add = "group.member_add"

abbrev pub op_group_member_update : String
op_group_member_update = "group.member_update"

abbrev pub op_group_member_remove : String
op_group_member_remove = "group.member_remove"

abbrev pub op_invitation_accept : String
op_invitation_accept = "invitation.accept"

abbrev pub op_invitation_reject : String
op_invitation_reject = "invitation.reject"

abbrev pub op_repair_user_clear_email_if_matches : String
op_repair_user_clear_email_if_matches = "repair.user.clear_email_if_matches"

abbrev pub op_repair_ensure_user : String
op_repair_ensure_user = "repair.user.ensure"

abbrev pub op_repair_ensure_group_member : String
op_repair_ensure_group_member = "repair.group.ensure_member"

abbrev pub op_repair_ensure_participant : String
op_repair_ensure_participant = "repair.appointment.ensure_participant"

abbrev pub op_repair_ensure_notification : String
op_repair_ensure_notification = "repair.notification.ensure"
