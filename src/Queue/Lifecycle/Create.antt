-- ===== src/Queue/Lifecycle/Create.antt =====
-- store/postgres/store.go: the operations that add a ticket, and the table `tickets`.
use mathlib.Core.List.{append_assoc, append-nil}
use qms.Base.{
  ℕ, String, false, Option, some, List, [], ◌∷◌, ◌++◌, ◌≡◌, ◌≢◌, sym, ◌=?◌, maybe, any, All,
  Bool-cases, inl, inr, eq_iff, arith, subst,
}
use qms.Queue.Models.{waiting, CreateTicketInput}
use qms.Queue.Db.{Db, TicketRow}
use qms.Queue.Tx.{Platform, statement}
use qms.Queue.Tx.Keeps.{Keeps, keeps_rules, Keeps-statement, Keeps-exec}
use qms.Queue.Events.{insert_outbox_event}
use qms.Queue.Create.{
  has_ticket_id, has_request_id, insert_unless_requested, insert_row, take_number,
  next_ticket_number, create_new, create_body, check_in_new, check_in_body,
}
use qms.Queue.Lifecycle.Frame.{
  find_ticket_by_request_id-Keeps, lookup_service_code-Keeps, insert_event-Keeps,
}
use qms.Queue.Lifecycle.Evolves.{Unique}

-- The table is the old one, with waiting tickets behind it, and the keys are unique.
pub record Grown (before after : List TicketRow) : Type 0 where
  pub new : List TicketRow
  pub grown : after ≡ before ++ new
  pub waiting_new : All (λ (r : TicketRow). r.status ≡ waiting) new
  pub unique : Unique after

pub Grown-refl : (xs : List TicketRow) → Unique xs → Grown xs xs
Grown-refl xs u = record { new = []; grown = sym (append-nil xs); waiting_new = tt; unique = u }

All-append_one :
    (P : TicketRow → Type 0) (xs : List TicketRow) (r : TicketRow)
    → All P xs
    → P r
    → All P (xs ++ (r ∷ []))
All-append_one P [] r h p = (p, tt)
All-append_one P (x ∷ xs) r h p = (h.0, All-append_one P xs r h.1 p)

-- A key that no row has can be added.
Unique-append_one :
    (xs : List TicketRow) (r : TicketRow)
    → any (λ (t : TicketRow). t.ticket_id =? r.ticket_id) xs ≡ false
    → Unique xs
    → Unique (xs ++ (r ∷ []))
unfolding any
Unique-append_one [] r h u = (tt, tt)
Unique-append_one (x ∷ xs) r h u = elim (Bool-cases (x.ticket_id =? r.ticket_id)) [
  | inl e ↦ absurd (cc (h, e))
  | inr e ↦ (
    All-append_one (λ (y : TicketRow). y.ticket_id ≢ x.ticket_id) xs r u.0
        (λ q. cc (e, (eq_iff x.ticket_id r.ticket_id).1 (sym q))),
    Unique-append_one xs r (ground (arith, h, e)) u.1,
  )
]

Grown-add :
    (before xs : List TicketRow) (r : TicketRow)
    → r.status ≡ waiting
    → any (λ (t : TicketRow). t.ticket_id =? r.ticket_id) xs ≡ false
    → Grown before xs
    → Grown before (xs ++ (r ∷ []))
Grown-add before xs r w h g = record {
  new = g.new ++ (r ∷ []);
  grown = rw g.grown (append_assoc before g.new (r ∷ []));
  waiting_new = All-append_one (λ (x : TicketRow). x.status ≡ waiting) g.new r g.waiting_new w;
  unique = Unique-append_one xs r h g.unique;
}

take_number-tickets :
    {B : Type 0} (a b : String) (d : Db B) (x : ℕ) (d' : Db B)
    → some (take_number a b d) ≡ some (x, d')
    → d.tickets ≡ d'.tickets
unfolding take_number maybe
take_number-tickets a b d x d' e = ground arith

module _ {B : Type 0} (P : Platform B) (before : List TicketRow) where
  abbrev pub Grows : Db B → Type 0
  Grows d = Grown before d.tickets

  insert_unless_requested-Grows :
      (r : TicketRow) (d : Db B) (o : Option TicketRow) (d' : Db B)
      → r.status ≡ waiting
      → Grows d
      → insert_unless_requested r d ≡ some (o, d')
      → Grows d'
  unfolding insert_unless_requested
  insert_unless_requested-Grows r d o d' w g e = elim (Bool-cases (has_ticket_id r.ticket_id d)) [
    | inl t ↦ subst (Grown before) {x = d.tickets} {y = d'.tickets} (ground arith) g
    | inr t ↦ elim (Bool-cases (has_request_id r.request_id d)) [
      | inl u ↦ subst (Grown before) {x = d.tickets} {y = d'.tickets} (ground arith) g
      | inr u ↦
          subst (Grown before) {x = d.tickets ++ (r ∷ [])} {y = d'.tickets} (ground arith)
            (Grown-add before d.tickets r w t g)
    ]
  ]

  insert_row-Grows :
      (r : TicketRow) (d : Db B) (o : TicketRow) (d' : Db B)
      → r.status ≡ waiting
      → Grows d
      → insert_row r d ≡ some (o, d')
      → Grows d'
  unfolding insert_row
  insert_row-Grows r d o d' w g e = elim (Bool-cases (has_ticket_id r.ticket_id d)) [
    | inl t ↦ absurd (ground arith)
    | inr t ↦
        subst (Grown before) {x = d.tickets ++ (r ∷ [])} {y = d'.tickets} (ground arith)
          (Grown-add before d.tickets r w t g)
  ]

  next_ticket_number-Grows : (a b : String) → Keeps Grows (next_ticket_number P a b)
  unfolding next_ticket_number
  next_ticket_number-Grows a b =
      Keeps-statement P _ λ t d h x d' e. subst (Grown before) (take_number-tickets a b d x d' e) h

  new_statement :
      (r : TicketRow)
      → r.status ≡ waiting
      → Keeps Grows (statement P (λ _ d. insert_unless_requested r d))
  new_statement r w =
      Keeps-statement P _ (λ t d h o d' e. insert_unless_requested-Grows r d o d' w h e)

  row_statement :
      (r : TicketRow) → r.status ≡ waiting → Keeps Grows (statement P (λ _ d. insert_row r d))
  row_statement r w = Keeps-statement P _ (λ t d h o d' e. insert_row-Grows r d o d' w h e)

  create_new-Grows : (i : CreateTicketInput) → Keeps Grows (create_new P i)
  unfolding create_new insert_outbox_event
  create_new-Grows i =
      search
        (
          keeps_rules,
          new_statement,
          next_ticket_number-Grows,
          lookup_service_code-Keeps P (Grown before),
          insert_event-Keeps P (Grown before),
        )
        depth 16

  pub create_body-Grows : (i : CreateTicketInput) → Keeps Grows (create_body P i)
  unfolding create_body
  create_body-Grows i =
      search (keeps_rules, create_new-Grows, find_ticket_by_request_id-Keeps P (Grown before)) depth
        12

  check_in_new-Grows : (a b c e : String) → Keeps Grows (check_in_new P a b c e)
  unfolding check_in_new insert_outbox_event
  check_in_new-Grows a b c e =
      search
        (
          keeps_rules,
          row_statement,
          Keeps-exec P,
          next_ticket_number-Grows,
          lookup_service_code-Keeps P (Grown before),
          insert_event-Keeps P (Grown before),
        )
        depth 20

  pub check_in_body-Grows : (a b c e : String) → Keeps Grows (check_in_body P a b c e)
  unfolding check_in_body
  check_in_body-Grows a b c e =
      search (keeps_rules, check_in_new-Grows, find_ticket_by_request_id-Keeps P (Grown before))
        depth 12
