-- ===== src/Notify/Store.antt =====
-- services/notification-service/internal/store: store.go and postgres/store.go.
use qms.Base.{
  ℕ, ◌+◌, String, Bool, true, false, ◌&&◌, Option, none, some, List, [], ◌∷◌, ◌++◌, ◌=?◌,
  if◌then◌else◌, maybe, ltb, leb, find, select, any, update, sort_by, take,
}
use qms.Base.Int.{ℤ, is_positive, pos_part}
use qms.Queue.Models.{waiting, status_eq}
use qms.Queue.Db.{Db, TicketRow, OutboxEvent}
use qms.Queue.Tx.{Platform}

-- A row of `notifications`; `created_at` is never read.
pub record NotificationRow : Type 0 where
  pub notification_id : String
  pub tenant_id : String
  pub channel : String
  pub recipient : String
  pub status : String
  pub attempts : ℕ
  pub last_error : Option String
  pub message : Option String
  pub next_attempt_at : Option ℕ
  pub sent_at : Option ℕ

pub record Notification : Type 0 where
  pub notification_id : String
  pub tenant_id : String
  pub channel : String
  pub recipient : String
  pub status : String
  pub attempts : ℕ
  pub last_error : String
  pub message : String
  pub next_attempt_at : Option ℕ

pub record DeadLetter : Type 0 where
  pub dlq_id : String
  pub notification_id : String
  pub reason : String

pub record PrefRow : Type 0 where
  pub tenant_id : String
  pub enabled : Bool

pub record TemplateRow : Type 0 where
  pub tenant_id : String
  pub template_id : String
  pub lang : String
  pub channel : String
  pub body : String

pub record Tables (B : Type 0) : Type 0 where
  pub db : Db B
  pub last_event_time : Option ℕ
  pub tenant_prefs : List PrefRow
  pub templates : List TemplateRow
  pub notifications : List NotificationRow
  pub dead_letters : List DeadLetter

-- What a provider was asked to send.
pub record Sending : Type 0 where
  pub channel : String
  pub recipient : String
  pub message : String

-- The tables, what was handed to providers (the last first), and the number of the operations.
pub record State (B : Type 0) : Type 0 where
  pub tables : Tables B
  pub sendings : List Sending
  pub tick : ℕ

-- `none` is an error, on which the worker returns.
abbrev pub Job : Type 0 → Type 0 → Type 0
Job B A = State B → Option A × State B

module _ {B A : Type 0} where
  unfoldable pub pure : A → Job B A
  pure a s = (some a, s)

  unfoldable pub give_up : Job B A
  give_up s = (none, s)

module _ {B A C : Type 0} where
  abbrev pub continue : Option A → (A → Job B C) → Job B C
  continue none f s = (none, s)
  continue (some a) f s = f a s

  infixl 5 ◌>>=◌ ◌>>◌
  unfoldable pub ◌>>=◌ : Job B A → (A → Job B C) → Job B C
  ◌>>=◌ m f s = let (r, s') = m s in continue r f s'

  abbrev pub ◌>>◌ : Job B A → Job B C → Job B C
  m >> n = m >>= λ _. n

abbrev pub next_tick : {B : Type 0} → State B → State B
next_tick s = record s { tick = s.tick + 1 }

module _ {B : Type 0} (P : Platform B) where
  abbrev pub finish : {A : Type 0} → Option (A × Tables B) → Job B A
  finish none s = (none, next_tick s)
  finish (some (a, t)) s = (some a, record s { tables = t; tick = s.tick + 1 })

  -- One statement, which may fail or break a constraint.
  unfoldable pub statement : {A : Type 0} → (ℕ → Tables B → Option (A × Tables B)) → Job B A
  statement f s = if P.fails s.tick then (none, next_tick s) else finish (f s.tick s.tables) s

  unfoldable pub query : {A : Type 0} → (Tables B → A) → Job B A
  query f = statement (λ n t. some (f t, t))

  unfoldable pub list_outbox_events : ℕ → ℤ → Job B (List (OutboxEvent B))
  list_outbox_events after limit = query λ t.
      take (if is_positive limit then pos_part limit else 50) (
        sort_by (λ (a b : OutboxEvent B). leb a.created_at b.created_at)
          (select (λ (e : OutboxEvent B). ltb after e.created_at) t.db.outbox_events))

  unfoldable pub get_last_offset : Job B ℕ
  get_last_offset = query (λ t. maybe t.last_event_time 0 (λ n. n))

  unfoldable pub update_offset : ℕ → Job B (Unit {0})
  update_offset value = statement (λ n t. some (tt, record t { last_event_time = some value }))

  unfoldable pub is_notifications_enabled : String → Job B Bool
  is_notifications_enabled tenant_id = query λ t.
      maybe (find (λ (p : PrefRow). p.tenant_id =? tenant_id) t.tenant_prefs) true λ p. p.enabled

  unfoldable pub get_template : String → String → String → String → Job B String
  get_template tenant_id template_id lang channel = query λ t.
      maybe
        (find
          (λ (r : TemplateRow).
            r.tenant_id =? tenant_id
            && (r.template_id =? template_id && (r.lang =? lang && r.channel =? channel)))
          t.templates)
        "" λ r. r.body

  -- The number of the row of the ticket, from 1; 0 if there is none.
  unfoldable pub row_number : String → ℕ → List TicketRow → ℕ
  row_number ticket_id n [] = 0
  row_number ticket_id n (r ∷ rs) =
      if r.ticket_id =? ticket_id then n else row_number ticket_id (n + 1) rs

  unfoldable pub get_queue_position : String → String → String → String → Job B ℕ
  get_queue_position tenant_id branch_id service_id ticket_id = query λ t. row_number ticket_id 1 (
      sort_by (λ (a b : TicketRow). leb a.created_at b.created_at)
        (select
          (λ (r : TicketRow).
            r.tenant_id =? tenant_id
            && (r.branch_id =? branch_id
                && (r.service_id =? service_id && status_eq r.status waiting)))
          t.db.tickets))

  abbrev row_of : Notification → NotificationRow
  row_of n = record {
    notification_id = n.notification_id;
    tenant_id = n.tenant_id;
    channel = n.channel;
    recipient = n.recipient;
    status = n.status;
    attempts = n.attempts;
    last_error = some n.last_error;
    message = some n.message;
    next_attempt_at = n.next_attempt_at;
    sent_at = none;
  }

  abbrev pub is_row : String → NotificationRow → Bool
  is_row id r = r.notification_id =? id

  -- The primary key is unique.
  unfoldable pub insert_notification : Notification → Job B (Unit {0})
  insert_notification n = statement λ _ t.
      if any (is_row n.notification_id) t.notifications
      then none
      else some (tt, record t { notifications = t.notifications ++ (row_of n ∷ []) })

  -- `Scan` fails on NULL in a text.
  unfoldable pub scan_all : List NotificationRow → Option (List Notification)
  scan_all [] = some []
  scan_all (r ∷ rs) = maybe (scan_all rs) none λ ns. maybe r.last_error none λ last_error.
      maybe r.message none λ message. some (
        record {
          notification_id = r.notification_id;
          tenant_id = r.tenant_id;
          channel = r.channel;
          recipient = r.recipient;
          status = r.status;
          attempts = r.attempts;
          last_error = last_error;
          message = message;
          next_attempt_at = r.next_attempt_at;
        }
        ∷ ns)

  abbrev pub is_due : ℕ → NotificationRow → Bool
  is_due time r = r.status =? "pending" && maybe r.next_attempt_at false (λ at. leb at time)

  abbrev pub due_before : NotificationRow → NotificationRow → Bool
  due_before a b = maybe a.next_attempt_at false λ x. maybe b.next_attempt_at true λ y. leb x y

  unfoldable pub list_due_notifications : ℤ → Job B (List Notification)
  list_due_notifications limit = statement λ n t.
      maybe
        (scan_all (
          take (if is_positive limit then pos_part limit else 50)
            (sort_by due_before (select (is_due (P.clock n)) t.notifications))))
        none λ ns. some (ns, t)

  abbrev pub change_row : String → (NotificationRow → NotificationRow) → Tables B → Tables B
  change_row id f t = record t { notifications = update (is_row id) f t.notifications }

  abbrev pub sent_row : ℕ → NotificationRow → NotificationRow
  sent_row time r = record r {
    status = "sent";
    sent_at = some time;
    last_error = none;
    next_attempt_at = none;
    attempts = r.attempts + 1;
  }

  abbrev pub retry_row : String → ℕ → NotificationRow → NotificationRow
  retry_row error at r = record r {
    status = "pending";
    last_error = some error;
    attempts = r.attempts + 1;
    next_attempt_at = some at;
  }

  abbrev pub failed_row : String → NotificationRow → NotificationRow
  failed_row error r = record r {
    status = "failed";
    last_error = some error;
    attempts = r.attempts + 1;
    next_attempt_at = none;
  }

  unfoldable pub mark_notification_sent : String → Job B (Unit {0})
  mark_notification_sent id = statement (λ n t. some (tt, change_row id (sent_row (P.clock n)) t))

  -- An UPDATE whose RETURNING is scanned: no row is an error.
  unfoldable pub change_one : String → (NotificationRow → NotificationRow) → Job B (Unit {0})
  change_one id f =
      statement
        λ n t. if any (is_row id) t.notifications then some (tt, change_row id f t) else none

  unfoldable pub mark_notification_retry : String → String → ℕ → Job B (Unit {0})
  mark_notification_retry id error at = change_one id (retry_row error at)

  unfoldable pub mark_notification_failed : String → String → Job B (Unit {0})
  mark_notification_failed id error = change_one id (failed_row error)

  unfoldable pub insert_dlq : String → String → Job B (Unit {0})
  insert_dlq id reason = statement λ n t. some (
    tt,
    record t {
      dead_letters =
          t.dead_letters
          ++ (record { dlq_id = P.uuid n; notification_id = id; reason = reason } ∷ []);
    },
  )

  -- `time.Now()`
  unfoldable pub now : Job B ℕ
  now s = (some (P.clock s.tick), next_tick s)

  -- `uuid.NewString()`
  unfoldable pub new_uuid : Job B String
  new_uuid s = (some (P.uuid s.tick), next_tick s)
