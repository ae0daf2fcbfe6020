-- ===== src/Queue/Lifecycle/Sweep.antt =====
-- store/postgres/store.go: `AutoNoShow` and the transition table. The loop updates rows by key
-- that the first query found.
use mathlib.Core.List.{Memᴰ}
use qms.Base.{
  ℕ, ◌+◌, String, Bool, true, false, List, [], ◌∷◌, ◌≡◌, refl, ◌=?◌, All, All-map, All-select,
  All-mem, All-take, All-sort_by, inl, inr, if◌then◌else◌, Bool-cases, and_true, arith,
}
use qms.Base.Int.{ℤ, pos_part}
use qms.Queue.Models.{status_text, called, status_eq→eq}
use qms.Queue.Transitions.{valid_transition}
use qms.Queue.Db.{TicketRow}
use qms.Queue.Tx.{Platform, State, statement, now, ◌>>=◌, pure}
use qms.Queue.Tx.Keeps.{Keeps, keeps_rules, Keeps-exec, Keeps-bind, Keeps-pure, Keeps-shadowed}
use qms.Queue.Events.{insert_outbox_event_no_show}
use qms.Queue.Actions.{no_show_row}
use qms.Queue.Operations.{Config}
use qms.Queue.AutoNoShow.{overdue, mark, process_item, item_round, each_item, auto_body}
use qms.Queue.Lifecycle.Frame.{get_service_policy-Keeps, insert_event-Keeps}
use qms.Queue.Lifecycle.Evolves.{
  Allowed, Unique, Evolves, Evolves-refl, Evolves-update_key, Moves, to_return, to_no_show,
  same_key,
}
use qms.Queue.Lifecycle.Steps.{Follows}

-- A row of the table that is called.
abbrev IsCalledIn : List TicketRow → TicketRow → Type 0
IsCalledIn xs r = Memᴰ r xs × (r.status ≡ called)

overdue_called :
    (locked : String → Bool) (time grace batch : ℕ) (xs : List TicketRow)
    → All (IsCalledIn xs) (overdue locked time grace batch xs)
unfolding overdue
overdue_called locked time grace batch xs = All-take _ batch _ (
    All-sort_by _ _ _ (
      All-select (λ (r : TicketRow). Memᴰ r xs) (IsCalledIn xs) _
        (λ r m e. (m, status_eq→eq r.status called (and_true _ _ e).0)) xs (All-mem xs)))

mark_Moves : (b : Bool) (p : TicketRow → Bool) → Moves "no_show" p (no_show_row b)
mark_Moves true p = record { same = λ r. ground arith; target = λ r. to_return }
mark_Moves false p = record { same = λ r. ground arith; target = λ r. to_no_show }

called-Allowed :
    (before : List TicketRow) (r : TicketRow)
    → Unique before
    → IsCalledIn before r
    → All
        (λ (x : TicketRow). (x.ticket_id =? r.ticket_id) ≡ true → Allowed "no_show" x.status)
        before
unfolding valid_transition status_text
called-Allowed before r u m =
    All-map (λ (t : TicketRow). (t.ticket_id =? r.ticket_id) ≡ true → t ≡ r)
      (λ (x : TicketRow). (x.ticket_id =? r.ticket_id) ≡ true → Allowed "no_show" x.status)
      (λ t f q. rw (f q, m.1) refl) before (same_key r before u m.0)

module _ {B : Type 0} (P : Platform B) (c : Config) (before : List TicketRow)
    (u : Unique before) where
  mark-Follows :
      (b : Bool) (r : TicketRow)
      → IsCalledIn before r
      → Keeps (Follows P "no_show" before) (mark P c b r.ticket_id)
  unfolding mark
  mark-Follows b r m = Keeps-exec P _ λ d h.
      Evolves-update_key "no_show" r.ticket_id (no_show_row b) before d.tickets (mark_Moves b _)
        (called-Allowed before r u m) h

  item_round-Follows :
      (grace : ℤ) (r : TicketRow)
      → IsCalledIn before r
      → Keeps (Follows P "no_show" before) (item_round P c grace r)
  unfolding item_round process_item insert_outbox_event_no_show
  item_round-Follows grace r m =
      search
        (
          keeps_rules,
          mark-Follows,
          get_service_policy-Keeps P (Evolves "no_show" before),
          insert_event-Keeps P (Evolves "no_show" before),
        )
        depth 16

  each_item-Follows :
      (grace : ℤ) (items : List TicketRow) (n : ℕ)
      → All (IsCalledIn before) items
      → Keeps (Follows P "no_show" before) (each_item P c grace items n)
  unfolding each_item
  each_item-Follows grace [] n h = search keeps_rules
  each_item-Follows grace (r ∷ rs) n h =
      Keeps-bind _ _ (Keeps-shadowed _ (item_round-Follows grace r h.0))
        (λ counted. each_item-Follows grace rs (if counted then n + 1 else n) h.1)

module _ {B : Type 0} (P : Platform B) (c : Config) where
  -- From the first query on.
  pub auto_body-Follows :
      (grace : ℤ) (batch : ℕ) (s : State B)
      → Unique s.db.tickets
      → Evolves "no_show" s.db.tickets (auto_body P c grace batch s).1.db.tickets
  unfolding auto_body ◌>>=◌ now statement pure
  auto_body-Follows grace batch s u = elim (Bool-cases (P.fails (s.tick + 1))) [
    | inl e ↦ rw e (Evolves-refl "no_show" s.db.tickets)
    | inr e ↦ rw e (
        (Keeps-bind _ _
            (each_item-Follows P c s.db.tickets u grace _ 0 (
              overdue_called (P.locked (s.tick + 1)) (P.clock s.tick) (pos_part grace) batch
                s.db.tickets))
            (λ n. Keeps-pure _)).at
          (record { db = s.db; tick = s.tick + 1 + 1 }) (Evolves-refl "no_show" s.db.tickets))
  ]
