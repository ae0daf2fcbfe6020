-- ===== src/Notify/Tests.antt =====
-- The theorems at a worker whose provider always fails.
use qms.Base.{none, some, [], ◌∷◌, ◌≡◌, refl, arith}
use qms.Base.Int.{pos, negsuc}
use qms.Queue.Payload.{Object}
use qms.Queue.Db.{OutboxEvent}
use qms.Queue.Tests.Fixture.{db}
use qms.Notify.Payloads.{text}
use qms.Notify.Channels.{Network, fail_provider, noop_provider}
use qms.Notify.Store.{NotificationRow, Tables, State}
use qms.Notify.Delivery.{Worker, retry_delay}
use qms.Notify.Worker.{Files}
use qms.Notify.Delays.{doubled, retry_delay-doubled}

abbrev network : Network
network = record { webhook_error = λ n. none; smtp_error = λ n. none }

abbrev files : Files Object
files = record {
  payload_of = λ o. some (λ key. some (text key));
  replace_all = λ t old new. t;
  read_prefs = λ n. some (("sms", "phone" ∷ []) ∷ []);
}

abbrev worker : Worker
worker = record {
  batch_size = 50;
  max_attempts = 3;
  reminder_threshold = 3;
  sms_provider = fail_provider;
  email_provider = noop_provider;
  wa_provider = noop_provider;
  push_provider = noop_provider;
  prefs_path = "prefs.json";
}

abbrev event : OutboxEvent Object
event = record {
  event_id = "e";
  tenant_id = "t";
  type = "ticket.created";
  payload = [];
  created_at = 70;
}

abbrev row : NotificationRow
row = record {
  notification_id = "n";
  tenant_id = "t";
  channel = "sms";
  recipient = "0812";
  status = "pending";
  attempts = 0;
  last_error = some "";
  message = some "Tiket A-001 dibuat.";
  next_attempt_at = none;
  sent_at = none;
}

abbrev tables : Tables Object
tables = record {
  db = db;
  last_event_time = none;
  tenant_prefs = [];
  templates = [];
  notifications = row ∷ [];
  dead_letters = [];
}

abbrev state : State Object
state = record { tables = tables; sendings = []; tick = 0 }

retry_delay-doubled_example : retry_delay 3 ≡ pos (doubled 3)
retry_delay-doubled_example = retry_delay-doubled 3 (omega arith) (omega arith)

-- The delay before attempt 32 is negative.
retry_delay_overflow : retry_delay 32 ≡ negsuc 7709325833709551615
unfolding retry_delay
retry_delay_overflow = refl
