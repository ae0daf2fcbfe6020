-- ===== src/Queue/Tests/Examples.antt =====
-- The theorems at concrete requests.
use mathlib.Core.List.{Memᴰ}
use mathlib.Core.List.Memᴰ.{cases_cons, not-nil}
use qms.Base.{
  ◌+◌, ◌*◌, none, sym, ap, ◌∙◌, inl, inr, ◌↔◌, ◌≤◌, ◌<◌, some, All, length, ℕ, true, false, List,
  [], ◌∷◌, ◌≡◌, ◌≢◌, refl, arith, find, any, maybe, update,
}
use qms.Base.Int.{pos, negsuc}
use qms.Queue.Models.{
  Ticket, no_ticket_value, status_text, waiting, called, access_denied, invalid_state,
  holiday_closed,
}
use qms.Queue.Db.{TicketRow}
use qms.Queue.Payload.{Object}
use qms.Queue.Tx.{State, left_open, refused}
use qms.Queue.Tx.Quiet.{IsQuiet}
use qms.Queue.Routing.{update_next_walkin_ticket}
use qms.Queue.Create.{create_ticket, check_in_appointment, take_number}
use qms.Queue.CallNext.{call_next}
use qms.Queue.Actions.{update_ticket_status, apply_no_show, transfer_ticket}
use qms.Queue.Operations.{recall_ticket, cancel_change, start_serving_change}
use qms.Queue.Service.{
  Request, create, act, call, start, complete, cancel, sweep, perform, serve, run,
}
use qms.Queue.Lifecycle.Requests.{Continues, serve-Continues}
use qms.Queue.Lifecycle.Runs.{run-terminal}
use qms.Queue.Endings.Closed.{actions_end}
use qms.Queue.Transitions.{valid_transition}
use qms.Queue.Endings.Refused.{IsRefused, update_ticket_status-IsRefused}
use qms.Queue.Reads.{queue_rows}
use qms.Queue.Listing.{InOrder, IsListed, queue_rows-IsListed}
use qms.Queue.Rehydrate.{TicketEvent, apply_payload, apply_event, rehydrate_from}
use qms.Queue.Rebuilt.{rehydrate_from_counter}
use qms.Queue.Endings.LeftOpen.{recall_left_open, denied_left_open, holiday_left_open}
use qms.Queue.Repeats.{IsReplay, perform-IsReplay}
use qms.Queue.Choice.{
  MayBeTaken, HasRightClass, HasSomeClass, TakenFirst, HasCalled, walkin_preferred, walkin_fallback,
}
use qms.Queue.Numbers.{last_number, take_number-last_number, format_ticket_number_injective}
use qms.Queue.Chain.Linked.{IsChained}
use qms.Queue.Chain.Requests.{run-IsChained}
use qms.Queue.Routing.{
  RoutingState, normalize_appointment_window, next_routing_state, appointment_target_count,
}
use qms.Queue.CallNext.{fresh_window}
use qms.Queue.AutoNoShow.{overdue}
use qms.Queue.Rounding.{appointment_target_count_nearest}
use qms.Queue.Windows.{next_routing_state_window}
use qms.Queue.Overdue.{IsDue, overdue-IsDue}
use qms.Queue.Tests.Fixture.{
  differ, vip_ticket, ticket, platform, config, first_ticket, cancelled_ticket, vip_service,
  booking, answered_call, db, start_state, on_ticket, call_of, new_visit, unique, unlogged,
}

abbrev quiet : IsQuiet platform
quiet = λ n. refl

abbrev a_day : List Request
a_day =
    create (new_visit "n1")
    ∷ act (call (call_of "n2" "s"))
    ∷ act (start (on_ticket "n3" "1"))
    ∷ act (cancel (on_ticket "n4" "3"))
    ∷ sweep (pos 0) (pos 10)
    ∷ act (complete (on_ticket "n5" "1"))
    ∷ []

serve-Continues_example :
    Continues "cancel" db.tickets
      (serve platform config (act (cancel (on_ticket "n1" "1"))) start_state).db.tickets
serve-Continues_example =
    serve-Continues platform config (act (cancel (on_ticket "n1" "1"))) start_state unique

run-terminal_example : Memᴰ cancelled_ticket (run platform config a_day start_state).db.tickets
run-terminal_example =
    run-terminal platform config a_day cancelled_ticket start_state unique refl
      (Memᴰ.tail (Memᴰ.head refl))

actions_end_example :
    let a = on_ticket "n1" "3" in
    ((create_ticket platform (new_visit "n1") start_state).ended ≢ left_open)
    × ((update_ticket_status platform cancel_change a start_state).ended ≢ left_open)
    × ((apply_no_show platform a true start_state).ended ≢ left_open)
    × ((transfer_ticket platform a start_state).ended ≢ left_open)
actions_end_example =
    actions_end platform start_state (new_visit "n1") cancel_change (on_ticket "n1" "3") true

recall_left_open_example :
    let r = recall_ticket platform (on_ticket "n1" "1") start_state in
    (r.ended ≡ left_open) × (r.answer ≡ refused invalid_state) × (r.after.db ≡ db)
unfolding find
recall_left_open_example =
    recall_left_open platform (on_ticket "n1" "1") start_state first_ticket quiet refl refl
      (λ q. cc)

denied_left_open_example :
    let r = call_next platform 3 (call_of "n1" "v") start_state in
    (r.ended ≡ left_open) × (r.answer ≡ refused access_denied) × (r.after.db ≡ db)
unfolding find any
denied_left_open_example =
    denied_left_open platform 3 (call_of "n1" "v") start_state vip_service quiet refl refl refl refl

holiday_left_open_example :
    let r = check_in_appointment platform "n1" "t" "b" "p" start_state in
    (r.ended ≡ left_open) × (r.answer ≡ refused holiday_closed) × (r.after.db ≡ db)
unfolding find any
holiday_left_open_example =
    holiday_left_open platform "n1" "t" "b" "p" start_state booking quiet refl refl refl

perform-IsReplay_example :
    IsReplay start_state "r1" cancelled_ticket
      (perform platform config (cancel (on_ticket "r1" "2")) start_state)
unfolding find
perform-IsReplay_example =
    perform-IsReplay platform config (cancel (on_ticket "r1" "2")) start_state answered_call "2"
      cancelled_ticket quiet refl refl refl

-- A ticket of the fixture that the call may take.
waits-MayBeTaken :
    (x : TicketRow)
    → x.tenant_id ≡ "t"
    → x.branch_id ≡ "b"
    → x.service_id ≡ "s"
    → x.status ≡ waiting
    → x.appointment_id ≡ none
    → MayBeTaken (λ id. false) (call_of "n1" "s") x
waits-MayBeTaken x t b v w a = record {
  is_tenants = t;
  is_branchs = b;
  is_services = v;
  waits = w;
  came_in = a;
  is_free = refl;
}

walkin_preferred_example :
    (r : TicketRow) × TakenFirst
      (HasRightClass false)
      (platform.locked 0)
      (call_of "n1" "s")
      db.tickets
      r
    × HasCalled
        (call_of "n1" "s")
        20
        r
        start_state
        (update_next_walkin_ticket platform (call_of "n1" "s") 20 false start_state)
walkin_preferred_example =
    walkin_preferred platform (call_of "n1" "s") 20 false start_state vip_ticket quiet
      (Memᴰ.tail (Memᴰ.tail (Memᴰ.head refl)))
      (waits-MayBeTaken vip_ticket refl refl refl refl refl) (differ "vip" "regular" refl)

take_number-last_number_example :
    ((take_number "b" "s" db).0 ≡ 1) × (last_number "b" "s" (take_number "b" "s" db).1 ≡ 1)
unfolding take_number last_number maybe find update
take_number-last_number_example = take_number-last_number "b" "s" "b" "s" db

format_ticket_number_injective_example : ◌≡◌ {A = ℕ} 7 7
format_ticket_number_injective_example = format_ticket_number_injective "A" 7 7 refl

run-IsChained_example : IsChained platform (run platform config a_day start_state).db.ticket_events
run-IsChained_example = run-IsChained platform config a_day start_state unlogged

abbrev routing : RoutingState
routing = record { priority_streak = 2; appointment_served = 3; total_served = 9 }

next_routing_state_window_example :
    let w = normalize_appointment_window (negsuc 4) in
    let r = next_routing_state (fresh_window routing w) "vip" true w in
    (r.appointment_served ≤ r.total_served) × (r.total_served < w)
next_routing_state_window_example =
    next_routing_state_window routing "vip" true (negsuc 4) (omega arith)

abbrev called_rows : List TicketRow
called_rows =
    record (ticket "4" called "regular" 10) { called_at = some 100 }
    ∷ record (ticket "5" called "regular" 10) { called_at = some 180 }
    ∷ first_ticket
    ∷ []

overdue-IsDue_example :
    All (IsDue (λ id. false) 200 50 called_rows) (overdue (λ id. false) 200 50 1 called_rows)
    × (length (overdue (λ id. false) 200 50 1 called_rows) ≤ 1)
overdue-IsDue_example = overdue-IsDue (λ id. false) 200 50 1 called_rows

update_ticket_status-IsRefused_example :
    IsRefused start_state invalid_state
      (update_ticket_status platform start_serving_change (on_ticket "n1" "1") start_state)
unfolding find maybe valid_transition status_text
update_ticket_status-IsRefused_example =
    update_ticket_status-IsRefused platform start_serving_change (on_ticket "n1" "1") start_state
      quiet refl refl refl

queue_rows-IsListed_example :
    InOrder (queue_rows "t" "b" "" db.tickets)
    × (Memᴰ vip_ticket (queue_rows "t" "b" "" db.tickets)
        ↔ (Memᴰ vip_ticket db.tickets × IsListed "t" "b" "" vip_ticket))
queue_rows-IsListed_example = queue_rows-IsListed "t" "b" "" db.tickets vip_ticket

abbrev vip_state : State Object
vip_state = record { db = record db { tickets = vip_ticket ∷ [] }; tick = 0 }

no_regular :
    (y : TicketRow)
    → Memᴰ y (vip_ticket ∷ [])
    → MayBeTaken (platform.locked 0) (call_of "n1" "s") y
    → HasRightClass true y
    → ⊥
no_regular y m w c = elim (cases_cons m) [
  | inl q ↦ differ "vip" "regular" refl (sym (ap (λ (x : TicketRow). x.priority_class) q) ∙ c)
  | inr k ↦ not-nil k
]

walkin_fallback_example :
    (r : TicketRow) × TakenFirst HasSomeClass
      (platform.locked 1)
      (call_of "n1" "s")
      (vip_ticket ∷ [])
      r
    × HasCalled
        (call_of "n1" "s")
        20
        r
        vip_state
        (update_next_walkin_ticket platform (call_of "n1" "s") 20 true vip_state)
walkin_fallback_example =
    walkin_fallback platform (call_of "n1" "s") 20 true vip_state vip_ticket quiet no_regular
      (Memᴰ.head refl) (waits-MayBeTaken vip_ticket refl refl refl refl refl)

abbrev served_ticket : Ticket
served_ticket = record no_ticket_value { ticket_id = "1"; counter_id = some "c" }

abbrev transfer_event : TicketEvent Object
transfer_event = record {
  ticket_id = "1";
  ticket_seq = 3;
  type = "ticket.transferred";
  payload = [];
  created_at = 30;
  prev_hash = "";
  hash = "";
}

rehydrate_from_counter_example : served_ticket.counter_id ≢ none
unfolding rehydrate_from apply_event apply_payload
rehydrate_from_counter_example =
    rehydrate_from_counter platform (transfer_event ∷ []) served_ticket served_ticket (λ q. cc) refl

-- A quarter of a window of ten is two and a half, which is rounded up.
target_of_quarter : appointment_target_count (pos 25) 10 ≡ 3
unfolding appointment_target_count
target_of_quarter = refl

appointment_target_count_nearest_example :
    let t = appointment_target_count (pos 25) 10 in
    (200 * t ≤ 2 * 250 + 100) × (2 * 250 + 100 < 200 * t + 200)
appointment_target_count_nearest_example =
    appointment_target_count_nearest (pos 25) 10 (omega arith)

-- Beyond 2 ^ 53 the doubles differ from exact arithmetic, whose number is odd here.
target_beyond : appointment_target_count (pos 100) 9007199254740993 ≡ 9007199254740992
unfolding appointment_target_count
target_beyond = refl
