-- ===== src/Queue/Create.antt =====
-- services/queue-service/internal/store/postgres/store.go: `CreateTicket`, `CheckInAppointment` and
-- the ticket numbers. The foreign keys of `tickets` are not modelled: the service and its branch are
-- looked up before the INSERT.
use Prim.Native.String.{◌++◌ as append}
use qms.Base.{
  ℕ, ◌+◌, String, Bool, true, false, ◌&&◌, Option, none, some, [], ◌∷◌, ◌++◌, ◌=?◌, ◌==◌,
  if◌then◌else◌, maybe, any, find, update,
}
use qms.Queue.Models.{
  Ticket, no_ticket_value, status_text, waiting, CreateTicketInput, null_if_empty, or_now, no_rows,
  ticket_not_found, holiday_closed,
}
use qms.Queue.Db.{Db, TicketRow, SequenceRow, AppointmentRow, Holiday}
use qms.Queue.Tx.{
  Platform, State, Tx, Answer, answered, Done, pure, leave, ◌>>=◌, ◌>>◌, or_raise, query, exec,
  statement, now, new_uuid, transact,
}
use qms.Queue.Rows.{find_ticket_by_request_id, lookup_service_code}
use qms.Queue.Decimal.{padded}
use qms.Queue.Events.{insert_outbox_event}

-- `fmt.Sprintf("%s-%0*d", serviceCode, ticketNumberPad, seq)`
unfoldable pub format_ticket_number : String → ℕ → String
format_ticket_number code seq = append code (append "-" (padded seq))

abbrev pub is_sequence : String → String → SequenceRow → Bool
is_sequence branch_id service_id r = r.branch_id =? branch_id && r.service_id =? service_id

abbrev pub bump_sequence : SequenceRow → SequenceRow
bump_sequence r = record r { next_number = r.next_number + 1 }

-- The upsert of `nextTicketNumber`, with its RETURNING.
unfoldable pub take_number : {B : Type 0} → String → String → Db B → ℕ × Db B
take_number branch_id service_id d =
    let new : SequenceRow = record {
      branch_id = branch_id;
      service_id = service_id;
      next_number = 1;
    } in
    maybe (find (is_sequence branch_id service_id) d.sequences)
      (1, record d { sequences = d.sequences ++ (new ∷ []) })
      (λ (r : SequenceRow). (
        r.next_number + 1,
        record d {
          sequences = update (is_sequence branch_id service_id) bump_sequence d.sequences;
        },
      ))

-- The row of a new ticket, before the columns that only one of its two INSERTs sets.
abbrev pub new_row :
    String → String → String → String → String → String → String → String → ℕ → TicketRow
new_row id request number tenant branch service channel priority created_at = record {
  ticket_id = id;
  request_id = request;
  ticket_number = number;
  tenant_id = tenant;
  branch_id = branch;
  service_id = service;
  area_id = none;
  status = waiting;
  channel = channel;
  priority_class = priority;
  created_at = created_at;
  called_at = none;
  served_at = none;
  completed_at = none;
  counter_id = none;
  returned = false;
  phone_hash = none;
  appointment_id = none;
}

abbrev pub has_ticket_id : {B : Type 0} → String → Db B → Bool
has_ticket_id id d = any (λ (t : TicketRow). t.ticket_id =? id) d.tickets

abbrev pub has_request_id : {B : Type 0} → String → Db B → Bool
has_request_id id d = any (λ (t : TicketRow). t.request_id =? id) d.tickets

abbrev add_row : {B : Type 0} → TicketRow → Db B → Db B
add_row r d = record d { tickets = d.tickets ++ (r ∷ []) }

-- The INSERT of `CreateTicket`: with `ON CONFLICT (request_id) DO NOTHING` it returns no row if the
-- request has a ticket. The primary key is the other constraint.
unfoldable pub insert_unless_requested :
    {B : Type 0} → TicketRow → Db B → Option (Option TicketRow × Db B)
insert_unless_requested r d =
    if has_request_id r.request_id d
    then some (none, d)
    else if has_ticket_id r.ticket_id d
    then none
    else some (some r, add_row r d)

-- The INSERT of `CheckInAppointment`, where both constraints are errors.
unfoldable pub insert_row : {B : Type 0} → TicketRow → Db B → Option (TicketRow × Db B)
insert_row r d =
    if has_request_id r.request_id d
    then none
    else if has_ticket_id r.ticket_id d
    then none
    else some (r, add_row r d)

-- What both functions put into the ticket that they return.
abbrev pub new_ticket : TicketRow → String → String → String → Ticket
new_ticket r tenant branch service = record no_ticket_value {
  ticket_id = r.ticket_id;
  ticket_number = r.ticket_number;
  status = status_text r.status;
  created_at = r.created_at;
  request_id = r.request_id;
  tenant_id = tenant;
  branch_id = branch;
  service_id = service;
}

module _ {B : Type 0} (P : Platform B) where
  unfoldable pub hash_phone : String → Option String
  hash_phone phone =
      let trimmed : String = P.trim_space phone in
      if trimmed =? "" then none else some (P.sha256_hex trimmed)

  unfoldable pub next_ticket_number : String → String → Tx B ℕ
  next_ticket_number branch_id service_id =
      statement P (λ _ d. some (take_number branch_id service_id d))

  unfoldable pub create_new : CreateTicketInput → Tx B (Answer (Ticket × Bool))
  create_new i = do
    code ← lookup_service_code P i.service_id i.branch_id i.tenant_id
    seq ← next_ticket_number i.branch_id i.service_id
    ticket_id ← new_uuid P
    time ← now P
    let base : TicketRow =
        new_row ticket_id i.request_id (format_ticket_number code seq) i.tenant_id i.branch_id
          i.service_id i.channel i.priority_class (or_now i.created_at time)
    let new : TicketRow = record base {
      area_id = null_if_empty i.area_id;
      phone_hash = hash_phone i.phone;
    }
    row ← statement P (λ _ d. insert_unless_requested new d)
    r ← or_raise row no_rows
    let t : Ticket = new_ticket r i.tenant_id i.branch_id i.service_id
    let ticket : Ticket = record t { area_id = i.area_id; phone = i.phone }
    insert_outbox_event P i.tenant_id ticket
    pure (answered (ticket, true))

  unfoldable pub create_body : CreateTicketInput → Tx B (Answer (Ticket × Bool))
  create_body i = do
    existing ← find_ticket_by_request_id P i.request_id
    maybe existing (create_new i) λ t. pure (answered (t, false))

  unfoldable pub create_ticket : CreateTicketInput → State B → Done B (Ticket × Bool)
  unfolding create_body create_new
  create_ticket i = transact P (create_body i)

  unfoldable pub check_in_new : String → String → String → String → Tx B (Answer Ticket)
  check_in_new request_id tenant_id branch_id appointment_id = do
    row ← query P λ d.
        find
          (λ (a : AppointmentRow).
            a.appointment_id =? appointment_id
            && (a.tenant_id =? tenant_id && (a.branch_id =? branch_id && a.status =? "scheduled")))
          d.appointments
    a ← or_raise row ticket_not_found
    holiday ← query P λ d.
        any
          (λ (h : Holiday).
            h.tenant_id =? tenant_id && (h.branch_id =? branch_id && h.date == a.scheduled_date))
          d.holidays
    if holiday then leave holiday_closed else (do
      exec P λ d. record d {
        appointments =
            update (λ (x : AppointmentRow). x.appointment_id =? appointment_id)
              (λ (x : AppointmentRow). record x { status = "checked_in" }) d.appointments;
      }
      code ← lookup_service_code P a.service_id branch_id tenant_id
      seq ← next_ticket_number branch_id a.service_id
      ticket_id ← new_uuid P
      created_at ← now P
      let base : TicketRow =
          new_row ticket_id request_id (format_ticket_number code seq) tenant_id branch_id
            a.service_id "kiosk" "regular" created_at
      let new : TicketRow = record base { appointment_id = some appointment_id }
      r ← statement P (λ _ d. insert_row new d)
      let ticket : Ticket = new_ticket r tenant_id branch_id a.service_id
      insert_outbox_event P tenant_id ticket
      pure (answered ticket))

  unfoldable pub check_in_body : String → String → String → String → Tx B (Answer Ticket)
  check_in_body request_id tenant_id branch_id appointment_id = do
    existing ← find_ticket_by_request_id P request_id
    maybe existing (check_in_new request_id tenant_id branch_id appointment_id)
        λ t. pure (answered t)

  unfoldable pub check_in_appointment : String → String → String → String → State B → Done B Ticket
  unfolding check_in_body check_in_new
  check_in_appointment request_id tenant_id branch_id appointment_id =
      transact P (check_in_body request_id tenant_id branch_id appointment_id)
