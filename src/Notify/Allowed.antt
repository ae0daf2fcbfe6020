-- ===== src/Notify/Allowed.antt =====
-- services/notification-service/internal/worker/worker.go: to whom an event is sent.
use qms.Base.{ℕ, ◌++◌, ◌≢◌, true, List, ◌≡◌, ◌⊎◌, All}
use qms.Queue.Tx.{Platform}
use qms.Notify.Channels.{Network, NotificationPrefs, allow}
use qms.Notify.Store.{Sending, State, Job}
use qms.Notify.Delivery.{Worker}
use qms.Notify.Worker.{Files}
use qms.Notify.Banned.{IsOpen}
use qms.Notify.Sends.{Sends}

module _ {B : Type 0} (P : Platform B) (N : Network) (F : Files B) (w : Worker) where
  -- These preferences let the message pass, which is for someone.
  abbrev Passes : NotificationPrefs → Sending → Type 0
  Passes prefs x =
      (x.recipient ≢ "") × (allow P.trim_space P.to_lower prefs x.channel x.recipient ≡ true)

  -- The message is for someone whom the file, as the operation `n` reads it, does not ban on the
  -- channel. Without a path there is no file.
  abbrev pub IsAllowed : ℕ → Sending → Type 0
  IsAllowed n x =
      (x.recipient ≢ "")
      × ((w.prefs_path ≡ "")
          ⊎ IsOpen P.trim_space P.to_lower (F.read_prefs n) x.channel x.recipient)

  -- What a job that starts in the state `s` sends.
  abbrev SendsAt : {A : Type 0} → State B → (Sending → Type 0) → Job B A → Type 0
  SendsAt s R m = (new : List Sending) × ((m s).1.sendings ≡ new ++ s.sendings) × All R new
