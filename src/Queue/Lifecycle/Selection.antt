-- ===== src/Queue/Lifecycle/Selection.antt =====
-- store/postgres/store.go: the UPDATEs of `CallNext` and `AutoNoShow`, which name a row by its
-- key, and the transition table.
use mathlib.Core.List.{Memᴰ}
use qms.Base.{
  ℕ, Bool, true, Option, none, some, List, ◌≡◌, refl, sym, ◌=?◌, select, best, All-map, mem-select,
  best-mem, and_true, arith, subst,
}
use qms.Queue.Models.{status_text, waiting, status_eq→eq, CallNextInput}
use qms.Queue.Transitions.{valid_transition}
use qms.Queue.Db.{Db, TicketRow}
use qms.Queue.Tx.{Platform, statement}
use qms.Queue.Tx.Keeps.{Keeps, keeps_rules, Keeps-statement}
use qms.Queue.Routing.{
  ClassFilter, is_queued, call_row, call_row_of, call_best, older, scheduled_before,
  walkin_candidates, appointment_candidates, update_next_walkin_ticket_with_filter,
  update_next_appointment_ticket_with_filter, update_next_walkin_ticket,
  update_next_appointment_ticket, update_next_ticket,
}
use qms.Queue.Lifecycle.Evolves.{
  Allowed, Unique, Evolves-Unique, Evolves-update, Moves, to_called, same_key,
}
use qms.Queue.Lifecycle.Steps.{Follows}

call_Moves : (i : CallNextInput) (t : ℕ) (p : TicketRow → Bool) → Moves "call_next" p (call_row i t)
call_Moves i t p = record { same = λ r. ground arith; target = λ r. to_called }

queued-Allowed :
    (i : CallNextInput) (r : TicketRow) → is_queued i r ≡ true → Allowed "call_next" r.status
unfolding valid_transition status_text
queued-Allowed i r e =
    let at_branch = (and_true (r.tenant_id =? i.tenant_id) _ e).1 in
    let at_service = (and_true (r.branch_id =? i.branch_id) _ at_branch).1 in
    let s =
      status_eq→eq r.status waiting (and_true (r.service_id =? i.service_id) _ at_service).1 in
    rw s refl

module _ {B : Type 0} (P : Platform B) (before : List TicketRow) (unique : Unique before) where
  call_best-Follows :
      (i : CallNextInput) (time : ℕ) (o : Option TicketRow) (d : Db B)
      → ((r : TicketRow) → o ≡ some r → Memᴰ r d.tickets × Allowed "call_next" r.status)
      → Follows P "call_next" before d
      → (x : Option TicketRow) (d' : Db B) → call_best i time o d ≡ some (x, d')
      → Follows P "call_next" before d'
  call_best-Follows i time none d k h x d' e =
      subst (Follows P "call_next" before) {x = d} {y = d'} (ground arith) h
  call_best-Follows i time (some r) d k h x d' e =
      subst (Follows P "call_next" before) {x = call_row_of i time r d} {y = d'} (ground arith) (
        Evolves-update "call_next" _ _ before d.tickets (call_Moves i time _)
          (All-map (λ (t : TicketRow). (t.ticket_id =? r.ticket_id) ≡ true → t ≡ r)
            (λ (t : TicketRow). (t.ticket_id =? r.ticket_id) ≡ true → Allowed "call_next" t.status)
            (λ t f q.
              subst (λ (y : TicketRow). Allowed "call_next" y.status) (sym (f q)) (k r refl).1)
            d.tickets
            (same_key r d.tickets (Evolves-Unique "call_next" before d.tickets h unique)
              (k r refl).0))
          h)

  -- A row that is first among selected rows of the table.
  selected :
      (i : CallNextInput) (p : TicketRow → Bool) (order : TicketRow → TicketRow → Bool)
      (xs : List TicketRow) (r : TicketRow)
      → ((t : TicketRow) → p t ≡ true → is_queued i t ≡ true)
      → best order (select p xs) ≡ some r
      → Memᴰ r xs × Allowed "call_next" r.status
  selected i p order xs r k e =
      let m = mem-select p r xs (best-mem order (select p xs) r e) in
      (m.0, queued-Allowed i r (k r m.1))

  walkin-Follows :
      (i : CallNextInput) (time : ℕ) (f : ClassFilter)
      → Keeps (Follows P "call_next" before) (
          statement P
            λ t d. call_best i time (best older (walkin_candidates (P.locked t) i f d.tickets)) d)
  unfolding walkin_candidates
  walkin-Follows i time f = Keeps-statement P _ λ t d.
      call_best-Follows i time _ d
        (λ r. selected i _ older d.tickets r (λ x e. (and_true (is_queued i x) _ e).0))

  appointment-Follows :
      (i : CallNextInput) (time : ℕ) (f : ClassFilter) (cutoff : ℕ)
      → Keeps (Follows P "call_next" before) (
          statement P λ t d.
            call_best i time
              (best
                (scheduled_before d.appointments)
                (appointment_candidates (P.locked t) i f cutoff d))
              d)
  unfolding appointment_candidates
  appointment-Follows i time f cutoff = Keeps-statement P _ λ t d.
      call_best-Follows i time _ d (λ r.
        selected i _ (scheduled_before d.appointments) d.tickets r
          (λ x e. (and_true (is_queued i x) _ e).0))

  update_next_walkin_ticket-Follows :
      (i : CallNextInput) (time : ℕ) (b : Bool)
      → Keeps (Follows P "call_next" before) (update_next_walkin_ticket P i time b)
  unfolding update_next_walkin_ticket update_next_walkin_ticket_with_filter
  update_next_walkin_ticket-Follows i time b = search (keeps_rules, walkin-Follows) depth 12

  update_next_appointment_ticket-Follows :
      (i : CallNextInput) (time cutoff : ℕ) (b : Bool)
      → Keeps (Follows P "call_next" before) (update_next_appointment_ticket P i time cutoff b)
  unfolding update_next_appointment_ticket update_next_appointment_ticket_with_filter
  update_next_appointment_ticket-Follows i time cutoff b =
      search (keeps_rules, appointment-Follows) depth 12

  pub update_next_ticket-Follows :
      (i : CallNextInput) (time : ℕ) (a b : Bool) (cutoff : ℕ)
      → Keeps (Follows P "call_next" before) (update_next_ticket P i time a b cutoff)
  unfolding update_next_ticket
  update_next_ticket-Follows i time a b cutoff =
      search
        (keeps_rules, update_next_walkin_ticket-Follows, update_next_appointment_ticket-Follows)
        depth 12
