-- ===== src/Realtime/Polling.antt =====
-- services/realtime-service: internal/store/postgres/store.go on the outbox and the offsets, and the
-- polling loop of cmd/realtime-service/main.go.
use qms.Base.{
  ℕ, ◌+◌, ◌*◌, String, Bool, not, ◌&&◌, ◌||◌, Option, none, some, List, [], ◌∷◌, ◌=?◌, ◌==◌,
  if◌then◌else◌, maybe, ltb, select, sort_by, take,
}
use qms.Base.Int.{ℤ, is_positive, pos_part}
use qms.Queue.Db.{Db, OutboxEvent}
use qms.Queue.Tx.{Platform}
use qms.Realtime.Hub.{Subscription, no_subscription, Client, broadcast}

pub record OutboxOffset : Type 0 where
  pub last_event_time : ℕ
  pub last_event_id : String

-- The queue service's tables, with the rows of `realtime_offsets` and `notification_offsets`.
pub record Tables (B : Type 0) : Type 0 where
  pub db : Db B
  pub realtime_offset : Option OutboxOffset
  pub notification_offset : Option ℕ

-- A field of a JSON object, with the text that `fmt.Sprint` gives of one that is no text.
pub data JsonValue : Type 0 where
  null : JsonValue
  text printed : String → JsonValue

-- encoding/json on an event, and the database's order of identifiers.
pub record Codec (B : Type 0) : Type 0 where
  pub fields_of : B → Option (String → JsonValue)
  pub marshal_envelope : String → B → ℕ → String
  pub id_before : String → String → Bool

-- The service: what it has stored, the clients of its hub, the offset that the loop holds, and the
-- number of the operations so far.
pub record Server (B : Type 0) : Type 0 where
  pub tables : Tables B
  pub clients : List Client
  pub offset : OutboxOffset
  pub tick : ℕ

-- The time of `time.Unix(0, 0)`, in nanoseconds from the zero time.
abbrev pub unix_epoch : ℕ
unix_epoch = 62135596800 * 1000000000

abbrev pub zero_uuid : String
zero_uuid = "00000000-0000-0000-0000-000000000000"

-- `str`
unfoldable pub str : JsonValue → String
str null = ""
str (text s) = s
str (printed s) = s

module _ {B : Type 0} (K : Codec B) where
  unfoldable pub extract_meta : B → Subscription
  extract_meta payload = maybe (K.fields_of payload) no_subscription λ data_. record {
    tenant_id = str (data_ "tenant_id");
    branch_id = str (data_ "branch_id");
    service_id = str (data_ "service_id");
  }

  abbrev pub after_offset : OutboxOffset → OutboxEvent B → Bool
  after_offset o e =
      ltb o.last_event_time e.created_at
      || (o.last_event_time == e.created_at && K.id_before o.last_event_id e.event_id)

  -- `ORDER BY created_at ASC, event_id ASC`
  abbrev pub not_after : OutboxEvent B → OutboxEvent B → Bool
  not_after a b =
      ltb a.created_at b.created_at
      || (a.created_at == b.created_at && not (K.id_before b.event_id a.event_id))

  unfoldable pub listed : OutboxOffset → ℤ → List (OutboxEvent B) → List (OutboxEvent B)
  listed offset limit events =
      take (if is_positive limit then pos_part limit else 100)
        (sort_by not_after (select (after_offset offset) events))

  -- One event of the loop of `main`.
  unfoldable pub publish : OutboxEvent B → Server B → Server B
  publish e s =
      let meta : Subscription = record (extract_meta e.payload) { tenant_id = e.tenant_id } in
      record s {
        offset = record { last_event_time = e.created_at; last_event_id = e.event_id };
        clients = broadcast (K.marshal_envelope e.type e.payload e.created_at) meta s.clients;
      }

  unfoldable pub publish_all : List (OutboxEvent B) → Server B → Server B
  publish_all [] s = s
  publish_all (e ∷ es) s = publish_all es (publish e s)

-- The earlier of the two offsets.
abbrev pub cleanup_before : ℕ → OutboxOffset → ℕ
cleanup_before notify_offset offset =
    if ltb notify_offset offset.last_event_time then notify_offset else offset.last_event_time

-- A query of the store: `none` is an error.
unfoldable pub attempt :
    {B A : Type 0} → Platform B → (Tables B → A × Tables B) → Server B → Option A × Server B
attempt P f s =
    if P.fails s.tick
    then (none, record s { tick = s.tick + 1 })
    else (let (a, t) = f s.tables in (some a, record s { tables = t; tick = s.tick + 1 }))

module _ {B : Type 0} (P : Platform B) (K : Codec B) where
  unfoldable pub list_outbox_events :
      OutboxOffset → ℤ → Server B → Option (List (OutboxEvent B)) × Server B
  list_outbox_events offset limit = attempt P (λ t. (listed K offset limit t.db.outbox_events, t))

  -- A missing row is `OutboxOffset{}`.
  unfoldable pub get_offset : Server B → Option OutboxOffset × Server B
  get_offset = attempt P λ t.
      (maybe t.realtime_offset (record { last_event_time = 0; last_event_id = "" }) (λ o. o), t)

  unfoldable pub update_offset : OutboxOffset → Server B → Option (Unit {0}) × Server B
  update_offset offset = attempt P (λ t. (tt, record t { realtime_offset = some offset }))

  unfoldable pub get_notification_offset : Server B → Option ℕ × Server B
  get_notification_offset = attempt P (λ t. (maybe t.notification_offset 0 (λ n. n), t))

  abbrev pub delete_before : ℕ → Tables B → Tables B
  delete_before before t = record t {
    db = record (t.db) {
      outbox_events =
          select (λ (e : OutboxEvent B). not (ltb e.created_at before)) t.db.outbox_events;
    };
  }

  unfoldable pub cleanup_outbox : ℕ → Server B → Option (Unit {0}) × Server B
  cleanup_outbox before s =
      if before == 0 then (some tt, s) else attempt P (λ t. (tt, delete_before before t)) s

  -- What follows `GetNotificationOffset`: errors are logged.
  abbrev pub clean : Option ℕ → Server B → Server B
  clean none s = s
  clean (some notify_offset) s =
      if notify_offset == 0 then s else (cleanup_outbox (cleanup_before notify_offset s.offset) s).1

  -- The end of a round that has listed events.
  unfoldable pub settle : Server B → Server B
  settle s =
      let (updated, s') = update_offset s.offset s in
      let (notify_offset, s'') = get_notification_offset s' in clean notify_offset s''

  abbrev pub publish_listed : Option (List (OutboxEvent B)) → Server B → Server B
  publish_listed none s = s
  publish_listed (some []) s = s
  publish_listed (some (e ∷ es)) s = settle (publish_all K (e ∷ es) s)

  -- One tick of the loop.
  unfoldable pub poll : ℤ → Server B → Server B
  poll batch_size s =
      let (events, s') = list_outbox_events s.offset batch_size s in publish_listed events s'

  -- The offset that `main` begins with.
  abbrev pub start_offset : Option OutboxOffset → OutboxOffset
  start_offset none = record { last_event_time = unix_epoch; last_event_id = zero_uuid }
  start_offset (some o) = record {
    last_event_time = if o.last_event_time == 0 then unix_epoch else o.last_event_time;
    last_event_id = if o.last_event_id =? "" then zero_uuid else o.last_event_id;
  }

  unfoldable pub start : Server B → Server B
  start s = let (o, s') = get_offset s in record s' { offset = start_offset o; clients = [] }
