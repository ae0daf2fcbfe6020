-- ===== src/Notify/Outcomes.antt =====
-- services/notification-service/internal/worker/worker.go: a notification that cannot be delivered.
use mathlib.Core.List.{Memᴰ}
use qms.Base.{
  zero, suc, ℕ, String, false, some, List, [], ◌∷◌, ◌≡◌, ◌=?◌, if◌then◌else◌, maybe, find,
}
use qms.Queue.Tx.{Platform}
use qms.Queue.Tx.Quiet.{IsQuiet}
use qms.Notify.Channels.{Network}
use qms.Notify.Store.{NotificationRow, Notification, DeadLetter, State, is_row, scan_all}
use qms.Notify.Delivery.{Worker}
use qms.Notify.Worker.{Files, deliver_all}

-- The delivery that `processRetries` makes of a row, when it is pending and due.
module _ {B : Type 0} (P : Platform B) (N : Network) (F : Files B) (w : Worker) where
  abbrev pub redeliver_row : NotificationRow → State B → State B
  redeliver_row r s =
      if r.status =? "pending"
      then maybe (scan_all P (r ∷ [])) s (λ ns. (deliver_all P N F w ns s).1)
      else s

  unfoldable pub redeliver : String → State B → State B
  redeliver id s =
      maybe (find (is_row P id) s.tables.notifications) s
        (λ (r : NotificationRow). redeliver_row r s)

  unfoldable pub redeliver_times : ℕ → String → State B → State B
  redeliver_times zero id s = s
  redeliver_times (suc k) id s = redeliver_times k id (redeliver id s)

module _ {B : Type 0} (P : Platform B) (quiet : IsQuiet P) where
  module _ (N : Network) (F : Files B) (w : Worker) where
    -- A row that can still be delivered.
    abbrev pub IsPending : NotificationRow → String → String → Type 0
    IsPending r last_error message =
        (r.status ≡ "pending")
        × (r.last_error ≡ some last_error)
        × (r.message ≡ some message)
        × ((message =? "") ≡ false)

    abbrev scanned : NotificationRow → String → String → Notification
    scanned r last_error message = record {
      notification_id = r.notification_id;
      tenant_id = r.tenant_id;
      channel = r.channel;
      recipient = r.recipient;
      status = "pending";
      attempts = r.attempts;
      last_error = last_error;
      message = message;
      next_attempt_at = r.next_attempt_at;
    }

    -- The notification has failed after so many attempts, and has a dead letter.
    abbrev pub IsGivenUp : String → State B → Type 0
    IsGivenUp id s =
        (r : NotificationRow) × (find (is_row P id) s.tables.notifications ≡ some r)
        × (r.status ≡ "failed")
        × (r.attempts ≡ w.max_attempts)
        × (d : DeadLetter) × Memᴰ d s.tables.dead_letters
        × (d.notification_id ≡ id)
