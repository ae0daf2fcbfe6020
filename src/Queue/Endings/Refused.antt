-- ===== src/Queue/Endings/Refused.antt =====
-- store/postgres/store.go: the refusals of `updateTicketStatus`, on a database that does not fail.
use qms.Base.{
  String, Bool, true, not, ◌&&◌, none, some, List, [], ◌∷◌, ◌≡◌, refl, ◌=?◌, if◌then◌else◌, maybe,
  find, update, Bool-cases, Option-cases, inl, inr, arith,
}
use qms.Queue.Models.{
  status_text, Error, Ticket, TicketActionInput, ticket_not_found, counter_mismatch, invalid_state,
  text_or_empty,
}
use qms.Queue.Transitions.{valid_transition}
use qms.Queue.Db.{TicketRow}
use qms.Queue.Tx.{Done, Platform, State, ◌>>=◌, pure, raise, rolled_back, refused, now}
use qms.Queue.Tx.Quiet.{IsQuiet, query_quiet, statement_quiet, transact_quiet}
use qms.Queue.Requests.{unless_repeated}
use qms.Queue.Rows.{is_ticket, find_action_request, load_ticket_state}
use qms.Queue.Actions.{
  StatusChange, changes, explain, change_first, change_body, update_ticket_status,
}
use qms.Queue.Endings.LeftOpen.{stored}

-- The request names a counter that has not the ticket, though another has.
abbrev pub is_elsewhere : StatusChange → TicketActionInput → TicketRow → Bool
is_elsewhere c i r =
    let counter : String = text_or_empty r.counter_id in
    c.require_counter && (not (counter =? "") && not (counter =? i.counter_id))

abbrev pub reason : StatusChange → TicketActionInput → List TicketRow → Error
reason c i rows =
    maybe (find (is_ticket i.ticket_id i.tenant_id i.branch_id) rows) ticket_not_found
      λ (r : TicketRow). if is_elsewhere c i r then counter_mismatch else invalid_state

update-none :
    {A : Type 0} (p : A → Bool) (f : A → A) (xs : List A) → find p xs ≡ none → update p f xs ≡ xs
unfolding find update
update-none p f [] h = refl
update-none p f (x ∷ xs) h = elim (Bool-cases (p x)) [
  | inl t ↦ absurd (ground (arith, h, t))
  | inr t ↦ rw (t, update-none p f xs (ground (arith, h, t))) refl
]

-- The transaction is rolled back for the given reason, and nothing changes.
abbrev pub IsRefused : {B : Type 0} → State B → Error → Done B (Ticket × Bool) → Type 0
IsRefused s e r = (r.answer ≡ refused e) × (r.ended ≡ rolled_back) × (r.after.db ≡ s.db)

module _ {B : Type 0} (P : Platform B) (quiet : IsQuiet P) (c : StatusChange)
    (i : TicketActionInput) (s : State B)
    (declared : valid_transition c.action (status_text c.from_status) ≡ true)
    (fresh : stored c.action i.request_id s.db ≡ none)
    (missed : find (changes c i) s.db.tickets ≡ none) where
  unchanged : (f : TicketRow → TicketRow) → update (changes c i) f s.db.tickets ≡ s.db.tickets
  unchanged f = update-none (changes c i) f s.db.tickets missed

  IsRefused-gone :
      find (is_ticket i.ticket_id i.tenant_id i.branch_id) s.db.tickets ≡ none
      → IsRefused s ticket_not_found (update_ticket_status P c i s)
  unfolding update_ticket_status change_body change_first unless_repeated find_action_request
      load_ticket_state explain ◌>>=◌ pure raise maybe now
  IsRefused-gone gone =
      simp
        (
          transact_quiet P quiet,
          query_quiet P quiet,
          statement_quiet P quiet,
          declared,
          fresh,
          missed,
          unchanged,
          gone,
        )
        (refl, refl, refl)

  IsRefused-there :
      (r : TicketRow)
      → find (is_ticket i.ticket_id i.tenant_id i.branch_id) s.db.tickets ≡ some r
      → IsRefused s
          (if is_elsewhere c i r then counter_mismatch else invalid_state)
          (update_ticket_status P c i s)
  unfolding update_ticket_status change_body change_first unless_repeated find_action_request
      load_ticket_state explain ◌>>=◌ pure raise maybe now
  IsRefused-there r there = elim (Bool-cases (is_elsewhere c i r)) [
    | inl t ↦
        simp
          (
            transact_quiet P quiet,
            query_quiet P quiet,
            statement_quiet P quiet,
            declared,
            fresh,
            missed,
            unchanged,
            there,
            t,
          )
          (refl, refl, refl)
    | inr t ↦
        simp
          (
            transact_quiet P quiet,
            query_quiet P quiet,
            statement_quiet P quiet,
            declared,
            fresh,
            missed,
            unchanged,
            there,
            t,
          )
          (refl, refl, refl)
  ]

-- A first request for a status change of the table, whose UPDATE meets no ticket, on a database that
-- does not fail, is rolled back and changes nothing. The answer is "not found" if the branch has no
-- such ticket, "counter mismatch" if the change needs the counter and another one has the ticket,
-- and "invalid state" otherwise.
pub update_ticket_status-IsRefused :
    {B : Type 0} (P : Platform B) (c : StatusChange) (i : TicketActionInput) (s : State B)
    → IsQuiet P
    → valid_transition c.action (status_text c.from_status) ≡ true
    → stored c.action i.request_id s.db ≡ none
    → find (changes c i) s.db.tickets ≡ none
    → IsRefused s (reason c i s.db.tickets) (update_ticket_status P c i s)
unfolding maybe
update_ticket_status-IsRefused P c i s quiet declared fresh missed =
    elim (Option-cases (find (is_ticket i.ticket_id i.tenant_id i.branch_id) s.db.tickets)) [
      | inl e ↦ rw e (IsRefused-gone P quiet c i s declared fresh missed e)
      | inr (r, e) ↦ rw e (IsRefused-there P quiet c i s declared fresh missed r e)
    ]
