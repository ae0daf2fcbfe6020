-- ===== src/Notify/Worker.antt =====
-- services/notification-service/internal/worker/worker.go: `Run` and what it calls.
use qms.Base.{
  ℕ, ◌-◌, String, not, ◌||◌, Option, none, some, List, [], ◌∷◌, ◌=?◌, ◌==◌, if◌then◌else◌, maybe,
  ltb,
}
use qms.Base.Int.{pos}
use qms.Queue.Db.{OutboxEvent}
use qms.Queue.Decimal.{decimal}
use qms.Queue.Tx.{Platform}
use qms.Notify.Payloads.{
  Payload, text, str, template_for_event, default_template, render_template, ChannelTarget,
  pick_channels,
}
use qms.Notify.Channels.{Network, NotificationPrefs, no_prefs, load_notification_prefs, allow}
use qms.Notify.Store.{
  Notification, Job, pure, give_up, ◌>>=◌, ◌>>◌, next_tick, list_outbox_events, get_last_offset,
  update_offset, is_notifications_enabled, get_template, get_queue_position, insert_notification,
  list_due_notifications, new_uuid,
}
use qms.Notify.Delivery.{Worker, deliver_notification}

-- encoding/json, `strings.ReplaceAll`, and the file of preferences, which is read by the number of
-- the operation; `none` where it cannot be read or decoded.
pub record Files (B : Type 0) : Type 0 where
  pub payload_of : B → Option Payload
  pub replace_all : String → String → String → String
  pub read_prefs : ℕ → Option (List (String × List String))

module _ {B : Type 0} (P : Platform B) (N : Network) (F : Files B) (w : Worker) where
  -- The preferences at an event.
  unfoldable pub current_prefs : Job B NotificationPrefs
  current_prefs s = if w.prefs_path =? "" then (some no_prefs, s) else (
    some (load_notification_prefs P.trim_space P.to_lower (F.read_prefs s.tick)),
    next_tick s,
  )

  unfoldable pub message_for : String → String → Payload → String → Job B String
  message_for tenant_id template_id payload channel = do
    body ← get_template P tenant_id template_id "id" channel
    pure (
        render_template F.replace_all
          (if body =? "" then default_template template_id "id" else body) payload)

  -- One round of the loop, for a recipient that is not skipped.
  unfoldable pub send_one : String → String → Payload → ChannelTarget → Job B (Unit {0})
  send_one tenant_id template_id payload c = do
    message ← message_for tenant_id template_id payload c.name
    id ← new_uuid P
    let notification : Notification = record {
      notification_id = id;
      tenant_id = tenant_id;
      channel = c.name;
      recipient = c.recipient;
      status = "pending";
      attempts = 0;
      last_error = "";
      message = message;
      next_attempt_at = none;
    }
    insert_notification P notification
    deliver_notification P N w notification

  unfoldable pub send_to :
      NotificationPrefs → String → String → Payload → List ChannelTarget → Job B (Unit {0})
  send_to prefs tenant_id template_id payload [] = pure tt
  send_to prefs tenant_id template_id payload (c ∷ cs) =
      let rest = send_to prefs tenant_id template_id payload cs in
      if c.recipient =? "" || not (allow P.trim_space P.to_lower prefs c.name c.recipient)
      then rest
      else (send_one tenant_id template_id payload c >> rest)

  unfoldable pub send_notifications :
      NotificationPrefs → String → String → Payload → Job B (Unit {0})
  send_notifications prefs tenant_id template_id payload =
      send_to prefs tenant_id template_id payload (pick_channels payload)

  abbrev pub with_position : Payload → ℕ → Payload
  with_position payload ahead key =
      if key =? "queue_position" then some (text (decimal ahead)) else payload key

  abbrev pub remind : NotificationPrefs → String → Payload → ℕ → Job B (Unit {0})
  remind prefs tenant_id payload position =
      if position == 0 || ltb w.reminder_threshold (position - 1)
      then pure tt
      else send_notifications prefs tenant_id "ticket_reminder"
          (with_position payload (position - 1))

  unfoldable pub maybe_send_reminder : NotificationPrefs → String → Payload → Job B (Unit {0})
  maybe_send_reminder prefs tenant_id payload =
      let ticket_id = str payload "ticket_id" in
      let branch_id = str payload "branch_id" in
      let service_id = str payload "service_id" in
      if ticket_id =? "" || (branch_id =? "" || service_id =? "")
      then pure tt
      else (get_queue_position P tenant_id branch_id service_id ticket_id
          >>= remind prefs tenant_id payload)

  -- The end of `processEvent`.
  unfoldable pub notify_about :
      NotificationPrefs → OutboxEvent B → Payload → String → Job B (Unit {0})
  notify_about prefs event payload template_id = if template_id =? "" then pure tt else (do
    send_notifications prefs event.tenant_id template_id payload
    if event.type =? "ticket.created"
        then maybe_send_reminder prefs event.tenant_id payload
        else pure tt)

  -- The part of `processEvent` after the payload is decoded.
  unfoldable pub process_payload : OutboxEvent B → Payload → Job B (Unit {0})
  process_payload event payload = do
    prefs ← current_prefs
    notify_about prefs event payload (template_for_event event.type)

  unfoldable pub process_event : OutboxEvent B → Job B (Unit {0})
  process_event event = do
    enabled ← is_notifications_enabled P event.tenant_id
    if enabled then maybe (F.payload_of event.payload) give_up (process_payload event) else pure tt

  -- The loop of `Run`: an error of an event is logged.
  unfoldable pub process_all : List (OutboxEvent B) → ℕ → Job B ℕ
  process_all [] last s = (some last, s)
  process_all (e ∷ es) last s = process_all es e.created_at (process_event e s).1

  unfoldable pub deliver_all : List Notification → Job B (Unit {0})
  deliver_all [] = pure tt
  deliver_all (n ∷ ns) = deliver_notification P N w n >> deliver_all ns

  unfoldable pub process_retries : Job B (Unit {0})
  process_retries = list_due_notifications P (pos w.batch_size) >>= deliver_all

  unfoldable pub run : Job B (Unit {0})
  run = do
    last ← get_last_offset P
    events ← list_outbox_events P last (pos w.batch_size)
    next ← process_all events last
    if next == 0 then pure tt else update_offset P next
    process_retries
