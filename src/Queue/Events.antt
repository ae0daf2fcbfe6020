-- ===== src/Queue/Events.antt =====
-- services/queue-service/internal/store/ticket_events.go (the hash) and the events that
-- internal/store/postgres/store.go writes: an outbox row and a row of the ticket's log for each.
use Prim.Native.String.{◌++◌ as append}
use qms.Base.{
  ℕ, ◌+◌, String, Bool, ◌&&◌, Option, none, some, List, [], ◌∷◌, ◌++◌, ◌=?◌, ◌==◌, if◌then◌else◌,
  select, any, ltb, best,
}
use qms.Queue.Models.{Ticket, failure}
use qms.Queue.Db.{Db, OutboxEvent, EventRow}
use qms.Queue.Payload.{Object, Value, text, time, flag, null}
use qms.Queue.Tx.{Platform, Tx, ◌>>=◌, ◌>>◌, or_raise, query, exec, statement, now, new_uuid}
use qms.Queue.Decimal.{decimal}

abbrev time_or_null : Option ℕ → Value
time_or_null none = null
time_or_null (some t) = time t

abbrev text_or_null : Option String → Value
text_or_null none = null
text_or_null (some s) = text s

-- The payload of `insertOutboxEvent`.
unfoldable pub created_payload : Ticket → Object
created_payload t =
    ("ticket_id", text t.ticket_id)
    ∷ ("ticket_number", text t.ticket_number)
    ∷ ("status", text t.status)
    ∷ ("created_at", time t.created_at)
    ∷ ("request_id", text t.request_id)
    ∷ ("tenant_id", text t.tenant_id)
    ∷ ("branch_id", text t.branch_id)
    ∷ ("service_id", text t.service_id)
    ∷ ("area_id", text t.area_id)
    ∷ ("phone", text t.phone)
    ∷ []

-- The payload of `insertOutboxEventCalled`.
unfoldable pub called_payload : Ticket → Object
called_payload t =
    ("ticket_id", text t.ticket_id)
    ∷ ("ticket_number", text t.ticket_number)
    ∷ ("status", text t.status)
    ∷ ("called_at", time_or_null t.called_at)
    ∷ ("counter_id", text_or_null t.counter_id)
    ∷ ("request_id", text t.request_id)
    ∷ ("tenant_id", text t.tenant_id)
    ∷ ("branch_id", text t.branch_id)
    ∷ ("service_id", text t.service_id)
    ∷ ("area_id", text t.area_id)
    ∷ []

-- The payload of `insertOutboxEventGeneric`.
unfoldable pub generic_payload : Ticket → Object
generic_payload t =
    ("ticket_id", text t.ticket_id)
    ∷ ("ticket_number", text t.ticket_number)
    ∷ ("status", text t.status)
    ∷ ("request_id", text t.request_id)
    ∷ ("called_at", time_or_null t.called_at)
    ∷ ("served_at", time_or_null t.served_at)
    ∷ ("completed_at", time_or_null t.completed_at)
    ∷ ("counter_id", text_or_null t.counter_id)
    ∷ ("tenant_id", text t.tenant_id)
    ∷ ("branch_id", text t.branch_id)
    ∷ ("service_id", text t.service_id)
    ∷ ("area_id", text t.area_id)
    ∷ []

abbrev reason_field : String → Object
reason_field reason = if reason =? "" then [] else ("reason", text reason) ∷ []

-- The payload of `insertOutboxEventTransfer`.
unfoldable pub transfer_payload : Ticket → String → String → String → Object
transfer_payload t from_service_id to_service_id reason =
    ("ticket_id", text t.ticket_id)
    ∷ ("ticket_number", text t.ticket_number)
    ∷ ("status", text t.status)
    ∷ ("request_id", text t.request_id)
    ∷ ("from_service_id", text from_service_id)
    ∷ ("to_service_id", text to_service_id)
    ∷ ("tenant_id", text t.tenant_id)
    ∷ ("branch_id", text t.branch_id)
    ∷ ("service_id", text t.service_id)
    ∷ ("area_id", text t.area_id)
    ∷ reason_field reason

-- The payload of `insertOutboxEventNoShow`.
unfoldable pub no_show_payload : Ticket → Bool → Object
no_show_payload t returned =
    ("ticket_id", text t.ticket_id)
    ∷ ("ticket_number", text t.ticket_number)
    ∷ ("status", text t.status)
    ∷ ("request_id", text t.request_id)
    ∷ ("called_at", time_or_null t.called_at)
    ∷ ("counter_id", text_or_null t.counter_id)
    ∷ ("returned", flag returned)
    ∷ ("tenant_id", text t.tenant_id)
    ∷ ("branch_id", text t.branch_id)
    ∷ ("service_id", text t.service_id)
    ∷ ("area_id", text t.area_id)
    ∷ []

module _ {B : Type 0} where
  -- The INSERT into `outbox_events`, with its primary key.
  unfoldable pub add_outbox : OutboxEvent B → Db B → Option (Unit {0} × Db B)
  add_outbox e d =
      if any (λ (x : OutboxEvent B). x.event_id =? e.event_id) d.outbox_events
      then none
      else some (tt, record d { outbox_events = d.outbox_events ++ (e ∷ []) })

  -- The INSERT into `ticket_events`, with its index on (ticket_id, ticket_seq).
  unfoldable pub append_event : EventRow B → Db B → Option (Unit {0} × Db B)
  append_event e d =
      if any (λ (x : EventRow B). x.ticket_id =? e.ticket_id && x.ticket_seq == e.ticket_seq)
        d.ticket_events
      then none
      else some (tt, record d { ticket_events = d.ticket_events ++ (e ∷ []) })

  -- `ORDER BY ticket_seq DESC LIMIT 1`
  unfoldable pub last_event : String → List (EventRow B) → Option (EventRow B)
  last_event ticket_id events =
      best (λ (a b : EventRow B). ltb b.ticket_seq a.ticket_seq)
        (select (λ (e : EventRow B). e.ticket_id =? ticket_id) events)

  abbrev pub seq_of : Option (EventRow B) → ℕ
  seq_of none = 0
  seq_of (some e) = e.ticket_seq

  abbrev pub hash_of : Option (EventRow B) → String
  hash_of none = ""
  hash_of (some e) = elim e.hash [ none ↦ "" | some h ↦ h ]

module _ {B : Type 0} (P : Platform B) where
  -- The fields, with `|` between them, under SHA-256.
  unfoldable pub compute_ticket_event_hash : String → String → String → B → ℕ → ℕ → String
  compute_ticket_event_hash prev_hash ticket_id event_type payload created_at seq = P.sha256_hex (
      append prev_hash (
        append "|" (
          append ticket_id (
            append "|" (
              append event_type (
                append "|" (
                  append (P.format_time created_at)
                    (append "|" (append (decimal seq) (append "|" (P.text_of payload)))))))))))

  -- The hash is that of the bytes and the time before they are stored.
  unfoldable pub insert_ticket_event : String → String → B → Tx B (Unit {0})
  insert_ticket_event ticket_id event_type payload = do
    exec P (λ d. d)
    last ← query P (λ d. last_event ticket_id d.ticket_events)
    let next_seq : ℕ = seq_of last + 1
    let prev : String = hash_of last
    created_at ← now P
    statement P λ _ d.
        append_event
          (record {
            ticket_id = ticket_id;
            ticket_seq = next_seq;
            type = event_type;
            payload = P.jsonb payload;
            created_at = P.timestamptz created_at;
            prev_hash = some prev;
            hash =
                some
                  (compute_ticket_event_hash prev ticket_id event_type payload created_at next_seq);
          })
          d

  -- What the five `insertOutboxEvent…` functions do with their payload.
  unfoldable pub insert_event : String → String → String → Object → Tx B (Unit {0})
  insert_event tenant_id event_type ticket_id fields = do
    payload ← or_raise (P.marshal fields) failure
    event_id ← new_uuid P
    created_at ← now P
    statement P λ _ d.
        add_outbox
          (record {
            event_id = event_id;
            tenant_id = tenant_id;
            type = event_type;
            payload = P.jsonb payload;
            created_at = P.timestamptz created_at;
          })
          d
    insert_ticket_event ticket_id event_type payload

  unfoldable pub insert_outbox_event : String → Ticket → Tx B (Unit {0})
  insert_outbox_event tenant_id t =
      insert_event tenant_id "ticket.created" t.ticket_id (created_payload t)

  unfoldable pub insert_outbox_event_called : String → Ticket → Tx B (Unit {0})
  insert_outbox_event_called tenant_id t =
      insert_event tenant_id "ticket.called" t.ticket_id (called_payload t)

  unfoldable pub insert_outbox_event_generic : String → String → Ticket → Tx B (Unit {0})
  insert_outbox_event_generic tenant_id event_type t =
      insert_event tenant_id event_type t.ticket_id (generic_payload t)

  unfoldable pub insert_outbox_event_transfer :
      String → Ticket → String → String → String → Tx B (Unit {0})
  insert_outbox_event_transfer tenant_id t from_service_id to_service_id reason =
      insert_event tenant_id "ticket.transferred" t.ticket_id
        (transfer_payload t from_service_id to_service_id reason)

  unfoldable pub insert_outbox_event_no_show : String → Ticket → Bool → Tx B (Unit {0})
  insert_outbox_event_no_show tenant_id t returned =
      insert_event tenant_id "ticket.no_show" t.ticket_id (no_show_payload t returned)
