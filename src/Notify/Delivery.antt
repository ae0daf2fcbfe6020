-- ===== src/Notify/Delivery.antt =====
-- services/notification-service/internal/worker/worker.go: `deliverNotification` and `retryDelay`.
use qms.Base.{
  ℕ, ◌+◌, ◌-◌, ◌*◌, ◌^◌, ◌%◌, String, Option, none, some, ◌∷◌, ◌=?◌, if◌then◌else◌, ltb, leb,
}
use qms.Base.Int.{ℤ, pos, negsuc, is_positive, pos_part}
use qms.Queue.Tx.{Platform}
use qms.Notify.Channels.{Provider, Environment, Network, new_provider, send_error}
use qms.Notify.Store.{
  Notification, Job, ◌>>=◌, ◌>>◌, mark_notification_sent, mark_notification_retry,
  mark_notification_failed, insert_dlq, now,
}

pub record Config : Type 0 where
  pub batch_size : ℤ
  pub max_attempts : ℤ
  pub sms_provider : String
  pub email_provider : String
  pub wa_provider : String
  pub push_provider : String
  pub reminder_threshold : ℤ
  pub prefs_path : String

-- `Worker`, less its store and its preferences, which are loaded again for every event.
pub record Worker : Type 0 where
  pub batch_size : ℕ
  pub max_attempts : ℕ
  pub reminder_threshold : ℕ
  pub sms_provider : Provider
  pub email_provider : Provider
  pub wa_provider : Provider
  pub push_provider : Provider
  pub prefs_path : String

abbrev positive_or : ℕ → ℤ → ℕ
positive_or default z = if is_positive z then pos_part z else default

-- `New`
unfoldable pub new_worker : Environment → Config → Worker
new_worker E cfg = record {
  batch_size = positive_or 50 cfg.batch_size;
  max_attempts = positive_or 3 cfg.max_attempts;
  reminder_threshold = positive_or 3 cfg.reminder_threshold;
  sms_provider = new_provider E cfg.sms_provider "sms";
  email_provider = new_provider E cfg.email_provider "email";
  wa_provider = new_provider E cfg.wa_provider "whatsapp";
  push_provider = new_provider E cfg.push_provider "push";
  prefs_path = cfg.prefs_path;
}

unfoldable pub provider_for : Worker → String → Provider
provider_for w channel =
    if channel =? "sms"
    then w.sms_provider
    else if channel =? "email"
    then w.email_provider
    else if channel =? "whatsapp"
    then w.wa_provider
    else if channel =? "push"
    then w.push_provider
    else w.sms_provider

-- The value of an `int64` whose bits are those of `v`.
abbrev pub int64 : ℕ → ℤ
int64 v =
    let bits = v % 2 ^ 64 in if ltb bits (2 ^ 63) then pos bits else negsuc (2 ^ 64 - 1 - bits)

-- In nanoseconds: five seconds, and five minutes.
abbrev pub base : ℕ
base = 5000000000

abbrev pub max : ℕ
max = 300000000000

abbrev pub at_most_max : ℤ → ℤ
at_most_max (pos d) = if ltb max d then pos max else pos d
at_most_max (negsuc d) = negsuc d

-- The product wraps around, as `time.Duration` does.
unfoldable pub retry_delay : ℕ → ℤ
retry_delay attempt =
    if leb attempt 1 then pos base else at_most_max (int64 (base * 2 ^ (attempt - 1)))

-- `Time.Add`
abbrev pub add_duration : ℕ → ℤ → ℕ
add_duration t (pos d) = t + d
add_duration t (negsuc d) = t - (d + 1)

module _ {B : Type 0} (P : Platform B) (N : Network) (w : Worker) where
  -- The provider's error, if there is one.
  unfoldable pub send : Provider → String → String → String → Job B (Option String)
  send provider channel message recipient s = (
    some (send_error N s.tick provider),
    record s {
      sendings =
          record { channel = channel; recipient = recipient; message = message } ∷ s.sendings;
      tick = s.tick + 1;
    },
  )

  unfoldable pub dead_letter : String → String → String → Job B (Unit {0})
  dead_letter id error reason = do mark_notification_failed P id error; insert_dlq P id reason

  unfoldable pub try_again : Notification → ℕ → String → Job B (Unit {0})
  try_again n next_attempts error = do
    time ← now P
    mark_notification_retry P n.notification_id error
        (add_duration time (retry_delay next_attempts))

  unfoldable pub after_send : Notification → Option String → Job B (Unit {0})
  after_send n none = mark_notification_sent P n.notification_id
  after_send n (some error) =
      if leb w.max_attempts (n.attempts + 1)
      then dead_letter n.notification_id error "max attempts reached"
      else try_again n (n.attempts + 1) error

  unfoldable pub deliver_notification : Notification → Job B (Unit {0})
  deliver_notification n =
      if n.message =? ""
      then dead_letter n.notification_id "missing message" "missing message"
      else (send (provider_for w n.channel) n.channel n.message n.recipient >>= after_send n)
