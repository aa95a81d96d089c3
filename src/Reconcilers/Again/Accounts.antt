-- ===== src/Reconcilers/Again/Accounts.antt =====
-- Users and notifications of an event that is handled again.
use agenda_distribuida.Prelude.{
  ◌≡◌, refl, sym, subst, ◌⊎◌, inl, inr, Option, none, some, String, List, arith, Option-cases, Bool,
  Bool-cases, any-append, eq_iff, str_eq,
}
use agenda_distribuida.Ids.{Digest}
use agenda_distribuida.Users.{User, UserRow}
use agenda_distribuida.Users.Laws.{ensure_user_again}
use agenda_distribuida.RaftUsers.{apply_ensure_user}
use agenda_distribuida.Notifications.{
  Notification, add_notification, ensure_notification, find_notification_by_signature,
  with_notification_id,
}
use agenda_distribuida.RaftAppointments.{apply_ensure_notification}
use agenda_distribuida.Tables.{Tables, Env}
use agenda_distribuida.RaftApplier.{run}
use agenda_distribuida.Events.{Event, AuditLog}
use agenda_distribuida.DomainPropose.RoundTrip.{Proposal, user_repair, notification_repair}
use agenda_distribuida.Reconcilers.{local_id}
use agenda_distribuida.Reconcilers.Users.{UserPayload, user_in, already_known, repair_of_user}
use agenda_distribuida.Reconcilers.Notifications.{NotifPayload, repair_of_notification}
use agenda_distribuida.Reconcilers.Again.{after}

-- What a decision makes of other tables.
abbrev pub Steady : Option Proposal → Proposal → Type 0
Steady d q = (d ≡ none) ⊎ (d ≡ some q)

-- Tables that want nothing more, or the same again, and to which the same again does nothing.
abbrev pub Quiet : Env → (Tables → Option Proposal) → Proposal → Tables → Type 0
Quiet env decide q t =
    Steady (decide (after env q t)) q × (after env q (after env q t) ≡ after env q t)

ensured_again :
    (d : Digest) (p : User) (rows : List UserRow)
    → (apply_ensure_user d p (apply_ensure_user d p rows).1).1 ≡ (apply_ensure_user d p rows).1
unfolding apply_ensure_user
ensured_again d p rows = ground (arith, ensure_user_again d p rows)

user_asked :
    (decode : String → Option UserPayload) (e : AuditLog) (t t' : Tables) (q : Proposal)
    → repair_of_user decode e t ≡ some q
    → ((u : User) × (q ≡ user_repair u)) × Steady (repair_of_user decode e t') q
unfolding repair_of_user
user_asked decode e t t' q h = elim (Option-cases (decode e.payload)) [
  | inl unread ↦ ground (arith, unread)
  | inr (p, is) ↦ (
    (user_in p, ground (arith, is)),
    elim (Bool-cases (already_known p t'.users)) [
      | inl known ↦ inl (ground (arith, is, known))
      | inr fresh ↦ inr (ground (arith, is, fresh))
    ],
  )
]

user_after :
    (env : Env) (u : User) (t : Tables)
    → after env (user_repair u) (after env (user_repair u) t) ≡ after env (user_repair u) t
unfolding run
user_after env u t = cc (ensured_again env.digest u t.users)

pub user_handled :
    (env : Env) (decode : String → Option UserPayload) (e : AuditLog) (t : Tables) (q : Proposal)
    → repair_of_user decode e t ≡ some q
    → Quiet env (repair_of_user decode e) q t
user_handled env decode e t q h =
    let ((u, is), steady) = user_asked decode e t (after env q t) q h in
    (steady, subst (λ q. after env q (after env q t) ≡ after env q t) (sym is) (user_after env u t))

pub added_again :
    (d : Digest) (n : Notification) (notes : List Notification)
    → (add_notification d n (add_notification d n notes).1).1 ≡ (add_notification d n notes).1
unfolding add_notification
added_again d n notes =
    let same : Notification → Bool = λ r. str_eq r.id (with_notification_id d n).id in
    let new = with_notification_id d n in
    ground (arith, any-append same notes new (ground (arith, eq_iff new.id new.id)))

told_again :
    (d : Digest) (n : Notification) (notes : List Notification)
    → (ensure_notification d n (ensure_notification d n notes).1).1
      ≡ (ensure_notification d n notes).1
unfolding ensure_notification
told_again d n notes = ground (arith, added_again d n notes)

notification_asked :
    (decode : String → Option NotifPayload) (e : Event) (t t' : Tables) (q : Proposal)
    → t'.users ≡ t.users
    → repair_of_notification decode e t ≡ some q
    → ((uid : String) × (type : String) × (payload : String) × (q
          ≡ notification_repair uid type payload))
      × Steady (repair_of_notification decode e t') q
unfolding repair_of_notification
notification_asked decode e t t' q same h = elim (Option-cases (decode e.payload)) [
  | inl unread ↦ ground (arith, unread)
  | inr (p, is) ↦ elim (Option-cases (local_id p.username p.user_id t.users)) [
    | inl unknown ↦ ground (arith, is, unknown)
    | inr (uid, here) ↦ (
      (uid, p.type, p.payload, ground (arith, is, here)),
      elim (Bool-cases
          (str_eq (find_notification_by_signature uid p.type p.payload t'.notifications) "")) [
            | inl missing ↦ inr (ground (arith, is, here, same, missing))
            | inr found ↦ inl (ground (arith, is, here, same, found))
          ],
    )
  ]
]

notification_after :
    (env : Env) (uid type payload : String) (t : Tables)
    → after env
        (notification_repair uid type payload)
        (after env (notification_repair uid type payload) t)
      ≡ after env (notification_repair uid type payload) t
unfolding run apply_ensure_notification
notification_after env uid type payload t = cc (told_again env.digest _ t.notifications)

users_after_notification :
    (env : Env) (uid type payload : String) (t : Tables)
    → (after env (notification_repair uid type payload) t).users ≡ t.users
unfolding run apply_ensure_notification
users_after_notification env uid type payload t = refl

pub notification_handled :
    (env : Env) (decode : String → Option NotifPayload) (e : Event) (t : Tables) (q : Proposal)
    → repair_of_notification decode e t ≡ some q
    → Quiet env (repair_of_notification decode e) q t
notification_handled env decode e t q h =
    let ((uid, type, payload, is), steady) = notification_asked decode e t t q refl h in
    let asks = subst (λ q. repair_of_notification decode e t ≡ some q) is h in
    let q' = notification_repair uid type payload in
    subst (λ q. Quiet env (repair_of_notification decode e) q t) (sym is)
      (
        (notification_asked decode e t (after env q' t) q'
            (users_after_notification env uid type payload t) asks).1,
        notification_after env uid type payload t,
      )
