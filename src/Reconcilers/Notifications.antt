-- ===== src/Reconcilers/Notifications.antt =====
-- reconciler_notifications.go: notifications that another node has made.
use agenda_distribuida.Prelude.{not, ◌||◌, String, Option, some, str_eq}
use agenda_distribuida.Notifications.{find_notification_by_signature}
use agenda_distribuida.Tables.{Tables}
use agenda_distribuida.Events.{Event}
use agenda_distribuida.DomainPropose.RoundTrip.{Proposal, notification_repair}
use agenda_distribuida.Reconcilers.{
  Surroundings, Fetch, Reconciler, reconcile, local_id, skip_if, ◌>>=◌, ◌>>◌,
}

pub record NotifPayload : Type 0 where
  pub user_id : String
  pub username : String
  pub type : String
  pub payload : String

module _ (decode : String → Option NotifPayload) where
  unfoldable pub repair_of_notification : Event → Tables → Option Proposal
  repair_of_notification e t = do
    skip_if (str_eq e.payload "")
    p ← decode e.payload
    skip_if (str_eq p.type "" || str_eq p.payload "")
    uid ← local_id p.username p.user_id t.users
    skip_if (not (str_eq (find_notification_by_signature uid p.type p.payload t.notifications) ""))
    some (notification_repair uid p.type p.payload)

  -- A tick of StartNotificationReconciler.
  unfoldable pub notification_reconciler : Surroundings → Fetch Event → Reconciler → Reconciler
  notification_reconciler s fetch =
      reconcile (λ e. e.created_at) repair_of_notification s "/cluster/local-events/notifications"
        fetch
