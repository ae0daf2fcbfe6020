-- ===== src/Notify/Channels.antt =====
-- services/notification-service/internal/worker: providers.go, and the preferences of worker.go.
use Prim.Native.String.{◌++◌ as append}
use qms.Base.{
  ℕ, String, Bool, true, not, ◌||◌, Option, none, some, List, [], ◌∷◌, ◌=?◌, if◌then◌else◌, maybe,
  find, any, select, map,
}
use qms.Http.Text.{has_prefix}

pub data Provider : Type 0 where
  log_provider : String → Provider
  noop_provider : Provider
  fail_provider : Provider
  webhook_provider : String → String → String → Provider
  smtp_provider : String → String → String → String → String → Provider

-- `os.Getenv` and `strings.ToUpper`
pub record Environment : Type 0 where
  pub getenv : String → String
  pub to_upper : String → String

unfoldable pub new_provider : Environment → String → String → Provider
new_provider E kind channel =
    if kind =? "" || (kind =? "stub" || kind =? "log")
    then log_provider channel
    else if kind =? "noop"
    then noop_provider
    else if kind =? "fail"
    then fail_provider
    else if kind =? "webhook"
    then (let name = append "NOTIF_" (E.to_upper channel) in
        let url = E.getenv (append name "_WEBHOOK_URL") in
        let token = E.getenv (append name "_WEBHOOK_TOKEN") in
        if url =? "" then log_provider channel else webhook_provider channel url token)
    else if kind =? "smtp"
    then (let host = E.getenv "NOTIF_EMAIL_SMTP_HOST" in
        let from = E.getenv "NOTIF_EMAIL_FROM" in
        if not (channel =? "email")
        then log_provider channel
        else if host =? "" || from =? ""
        then log_provider channel
        else smtp_provider host (E.getenv "NOTIF_EMAIL_SMTP_PORT")
            (E.getenv "NOTIF_EMAIL_SMTP_USER") (E.getenv "NOTIF_EMAIL_SMTP_PASS") from)
    else if kind =? "sms_http"
    then (let url = E.getenv "NOTIF_SMS_HTTP_URL" in
        if not (channel =? "sms")
        then log_provider channel
        else if url =? ""
        then log_provider channel
        else webhook_provider channel url (E.getenv "NOTIF_SMS_HTTP_TOKEN"))
    else if has_prefix kind "http://" || has_prefix kind "https://"
    then webhook_provider channel kind ""
    else log_provider channel

-- The errors of a request over HTTP and of a mail, by the number of the operation; `none` is
-- success.
pub record Network : Type 0 where
  pub webhook_error : ℕ → Option String
  pub smtp_error : ℕ → Option String

-- The error of `Send`.
unfoldable pub send_error : Network → ℕ → Provider → Option String
send_error N n (log_provider channel) = none
send_error N n noop_provider = none
send_error N n fail_provider = some "provider failure"
send_error N n (webhook_provider channel url token) = N.webhook_error n
send_error N n (smtp_provider host port user pass from) = N.smtp_error n

-- The blocked recipients of each channel; `none` where nothing was loaded.
pub record NotificationPrefs : Type 0 where
  pub blocked : Option (List (String × List String))

abbrev pub no_prefs : NotificationPrefs
no_prefs = record { blocked = none }

module _ (trim_space to_lower : String → String) where
  -- A channel without recipients is left out.
  abbrev pub with_channel :
      String → List String → List (String × List String) → List (String × List String)
  with_channel name [] blocked = blocked
  with_channel name (r ∷ rs) blocked = (name, r ∷ rs) ∷ blocked

  -- A later channel of the same name replaces an earlier one.
  unfoldable pub load_channels :
      List (String × List String) → List (String × List String) → List (String × List String)
  load_channels [] blocked = blocked
  load_channels ((channel, recipients) ∷ more) blocked =
      let name = to_lower (trim_space channel) in
      let trimmed = select (λ (r : String). not (r =? "")) (map trim_space recipients) in
      load_channels more (if name =? "" then blocked else with_channel name trimmed blocked)

  -- `loadNotificationPrefs` of the file's content; `none` if it cannot be read or decoded.
  unfoldable pub load_notification_prefs : Option (List (String × List String)) → NotificationPrefs
  load_notification_prefs none = no_prefs
  load_notification_prefs (some data_) = record { blocked = some (load_channels data_ []) }

  unfoldable pub allow : NotificationPrefs → String → String → Bool
  allow p channel recipient =
      let name = to_lower (trim_space channel) in
      maybe p.blocked true λ blocked.
        if name =? "" || recipient =? ""
        then true
        else maybe (find (λ (b : String × List String). b.0 =? name) blocked) true
            λ b. not (any (λ (r : String). r =? recipient) b.1)
