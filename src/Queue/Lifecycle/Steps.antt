-- ===== src/Queue/Lifecycle/Steps.antt =====
-- The statements that change the table of tickets, and the operations around them.
use qms.Base.{ℕ, String, Bool, true, false, ◌||◌, List, ◌≡◌, refl, All-intro, arith, and_true}
use qms.Queue.Models.{
  Status, waiting, called, serving, status_eq, status_text, status_eq→eq, TicketActionInput,
}
use qms.Queue.Transitions.{valid_transition}
use qms.Queue.Db.{Db, TicketRow}
use qms.Queue.Tx.{Platform, statement}
use qms.Queue.Tx.Keeps.{Keeps, Keeps-write}
use qms.Queue.Actions.{
  update_one, StatusChange, changes, set_status, stamp, TimestampColumn, served_at_column,
  no_show_row, is_called_ticket, is_transferable, transfer_row, transfer_one,
}
use qms.Queue.Rows.{is_ticket}
use qms.Queue.Lifecycle.Evolves.{
  Allowed, Target, to_return, to_no_show, to_queue, SameTicket, Evolves, Moves, Evolves-update,
}

module _ {B : Type 0} (P : Platform B) (a : String) (before : List TicketRow) where
  abbrev pub Follows : Db B → Type 0
  Follows d = Evolves a before d.tickets

  pub update_one-Keeps :
      (p : TicketRow → Bool) (f : TicketRow → TicketRow)
      → Moves a p f
      → ((r : TicketRow) → p r ≡ true → Allowed a r.status)
      → Keeps Follows (statement P (λ _ d. update_one p f d))
  update_one-Keeps p f m k =
      Keeps-write P _ _ (λ d h. Evolves-update a p f before d.tickets m (All-intro _ k d.tickets) h)

  pub transfer_one-Keeps :
      (i : TicketActionInput)
      → Moves a (is_transferable i) (transfer_row i)
      → ((r : TicketRow) → is_transferable i r ≡ true → Allowed a r.status)
      → Keeps Follows (statement P (λ _ d. transfer_one i d))
  transfer_one-Keeps i m k = Keeps-write P _ _ (λ d h.
      Evolves-update a (is_transferable i) (transfer_row i) before d.tickets m
        (All-intro _ k d.tickets) h)

-- What sets a status change apart agrees with the transition table.
pub record IsDeclared (c : StatusChange) : Type 0 where
  pub allowed : Allowed c.action c.from_status
  pub target : Target c.action c.to_status

stamp_same :
    (c : TimestampColumn) (t : ℕ) (s : Status) (r : TicketRow)
    → SameTicket r (set_status s (stamp c t r))
stamp_same served_at_column t s r = ground arith
stamp_same _ t s r = ground arith

pub changes-Allowed :
    (c : StatusChange) (i : TicketActionInput) (r : TicketRow)
    → IsDeclared c
    → changes c i r ≡ true
    → Allowed c.action r.status
changes-Allowed c i r h e =
    let s = status_eq→eq r.status c.from_status (and_true _ _ (and_true _ _ e).1).0 in
    rw s h.allowed

pub change_Moves :
    (c : StatusChange) (i : TicketActionInput) (t : ℕ)
    → IsDeclared c
    → Moves c.action (changes c i) (λ r. set_status c.to_status (stamp c.column t r))
change_Moves c i t h = record {
  same = λ r. stamp_same c.column t c.to_status r;
  target = λ r. h.target;
}

pub no_show_Moves :
    (b : Bool) (i : TicketActionInput) → Moves "no_show" (is_called_ticket i) (no_show_row b)
no_show_Moves true i = record { same = λ r. ground arith; target = λ r. to_return }
no_show_Moves false i = record { same = λ r. ground arith; target = λ r. to_no_show }

pub no_show-Allowed :
    (i : TicketActionInput) (r : TicketRow)
    → is_called_ticket i r ≡ true
    → Allowed "no_show" r.status
unfolding valid_transition status_text
no_show-Allowed i r e =
    let s =
      status_eq→eq r.status called
        (and_true (is_ticket i.ticket_id i.tenant_id i.branch_id r) _ e).1 in
    rw s refl

pub transfer_Moves : (i : TicketActionInput) → Moves "transfer" (is_transferable i) (transfer_row i)
transfer_Moves i = record { same = λ r. ground arith; target = λ r. to_queue }

transferable_status :
    (s : Status)
    → (status_eq s waiting || (status_eq s called || status_eq s serving)) ≡ true
    → Allowed "transfer" s
unfolding valid_transition status_text
transferable_status waiting e = refl
transferable_status called e = refl
transferable_status serving e = refl
transferable_status _ e = absurd (cc)

pub transfer-Allowed :
    (i : TicketActionInput) (r : TicketRow)
    → is_transferable i r ≡ true
    → Allowed "transfer" r.status
transfer-Allowed i r e = transferable_status r.status (and_true _ _ e).1
