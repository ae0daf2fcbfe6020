-- ===== src/Queue/Choice.antt =====
-- store/postgres/store.go: the ticket that `updateNextWalkinTicket` takes.
use mathlib.Core.List.{Memᴰ}
use mathlib.Core.List.Memᴰ.{not-nil}
use qms.Base.{
  ◌+◌, ℕ, ◌≤◌, String, Bool, true, false, none, some, Option, List, ◌=?◌, ◌≡◌, ◌≢◌, refl, subst,
  if◌then◌else◌, best, update, mem-All, mem-select, select-mem, and_true, eq_iff, best-mem, best-le,
  best-none, Bool-cases, Option-cases, inl, inr, arith,
}
use qms.Queue.Models.{Ticket, CallNextInput, waiting, called, status_eq→eq}
use qms.Queue.Db.{TicketRow}
use qms.Queue.Tx.{Platform, State, Outcome, ok, ◌>>=◌, pure, raise, or_if_no_rows}
use qms.Queue.Tx.Quiet.{IsQuiet, statement_quiet}
use qms.Queue.Rows.{scan_called}
use qms.Queue.Routing.{
  ClassFilter, any_class, only_regular, not_regular, older, passes, walkin_candidates,
  update_next_walkin_ticket_with_filter, update_next_walkin_ticket,
}

-- The ticket waits in the queue of the input, came without an appointment, and is not locked.
pub record MayBeTaken (locked : String → Bool) (i : CallNextInput) (x : TicketRow) : Type 0 where
  pub is_tenants : x.tenant_id ≡ i.tenant_id
  pub is_branchs : x.branch_id ≡ i.branch_id
  pub is_services : x.service_id ≡ i.service_id
  pub waits : x.status ≡ waiting
  pub came_in : x.appointment_id ≡ none
  pub is_free : locked x.ticket_id ≡ false

-- The tickets of the class "regular", or those of the other classes, are preferred.
abbrev pub HasRightClass : Bool → TicketRow → Type 0
HasRightClass true x = x.priority_class ≡ "regular"
HasRightClass false x = x.priority_class ≢ "regular"

abbrev pub HasSomeClass : TicketRow → Type 0
HasSomeClass x = Unit {0}

-- Of the walk-in tickets of the class, the row is the oldest.
pub record TakenFirst (C : TicketRow → Type 0) (locked : String → Bool) (i : CallNextInput)
    (rows : List TicketRow) (r : TicketRow) : Type 0 where
  pub member : Memᴰ r rows
  pub is_walkin : MayBeTaken locked i r
  pub is_class : C r
  pub oldest :
      (y : TicketRow) → Memᴰ y rows → MayBeTaken locked i y → C y → r.created_at ≤ y.created_at

abbrev pub called_by : CallNextInput → ℕ → TicketRow → TicketRow
called_by i time r = record r {
  status = called;
  counter_id = some i.counter_id;
  called_at = some time;
}

-- The answer is the row as it has been called, with its class, and the table has it called.
abbrev pub HasCalled :
    {B : Type 0}
    → CallNextInput
    → ℕ
    → TicketRow
    → State B
    → Outcome (Ticket × String) × State B
    → Type 0
HasCalled i time r s x =
    (x.0 ≡ ok (scan_called (called_by i time r), r.priority_class))
    × (x.1.db ≡ record s.db {
      tickets =
          update (λ (t : TicketRow). t.ticket_id =? r.ticket_id) (called_by i time) s.db.tickets;
    })

-- What a class filter lets through.
abbrev OfClass : ClassFilter → TicketRow → Type 0
OfClass any_class x = Unit {0}
OfClass only_regular x = x.priority_class ≡ "regular"
OfClass not_regular x = x.priority_class ≢ "regular"

abbrev preferred : Bool → ClassFilter
preferred prefer_regular = if prefer_regular then only_regular else not_regular

no_appointment-none :
    (o : Option String) → (elim o [ none ↦ true | some a ↦ false ]) ≡ true → o ≡ none
no_appointment-none none h = refl
no_appointment-none (some a) h = absurd (cc (h))

passes-class : (f : ClassFilter) (x : TicketRow) → passes f x ≡ true → OfClass f x
passes-class any_class x h = tt
passes-class only_regular x h = (eq_iff x.priority_class "regular").0 h
passes-class not_regular x h = λ e. cc (h, (eq_iff x.priority_class "regular").1 e)

class-passes : (f : ClassFilter) (x : TicketRow) → OfClass f x → passes f x ≡ true
class-passes any_class x h = refl
class-passes only_regular x h = (eq_iff x.priority_class "regular").1 h
class-passes not_regular x h = elim (Bool-cases (x.priority_class =? "regular")) [
  | inl t ↦ absurd (h ((eq_iff x.priority_class "regular").0 t))
  | inr t ↦ rw t refl
]

module _ (locked : String → Bool) (i : CallNextInput) where
  walkin-candidate :
      (f : ClassFilter) (rows : List TicketRow) (x : TicketRow)
      → Memᴰ x rows
      → MayBeTaken locked i x
      → OfClass f x
      → Memᴰ x (walkin_candidates locked i f rows)
  unfolding walkin_candidates
  walkin-candidate f rows x m w c = select-mem _ x rows m (
      rw
        (
          class-passes f x c,
          w.is_free,
          (eq_iff x.tenant_id i.tenant_id).1 w.is_tenants,
          (eq_iff x.branch_id i.branch_id).1 w.is_branchs,
          (eq_iff x.service_id i.service_id).1 w.is_services,
          w.waits,
          w.came_in,
        )
        refl)

  candidate-MayBeTaken :
      (f : ClassFilter) (rows : List TicketRow) (x : TicketRow)
      → Memᴰ x (walkin_candidates locked i f rows)
      → Memᴰ x rows × MayBeTaken locked i x × OfClass f x
  unfolding walkin_candidates
  candidate-MayBeTaken f rows x h =
      let (m, p) = mem-select _ x rows h in
      let (queued, p1) = and_true _ _ p in
      let (came_in, p2) = and_true _ _ p1 in
      let (class, free) = and_true _ _ p2 in
      let (tenant, q1) = and_true _ _ queued in
      let (branch, q2) = and_true _ _ q1 in
      let (service, status) = and_true _ _ q2 in
      (
        m,
        record {
          is_tenants = (eq_iff x.tenant_id i.tenant_id).0 tenant;
          is_branchs = (eq_iff x.branch_id i.branch_id).0 branch;
          is_services = (eq_iff x.service_id i.service_id).0 service;
          waits = status_eq→eq x.status waiting status;
          came_in = no_appointment-none x.appointment_id came_in;
          is_free = ground (arith, free);
        },
        passes-class f x class,
      )

  best-TakenFirst :
      (f : ClassFilter) (rows : List TicketRow) (r : TicketRow)
      → best older (walkin_candidates locked i f rows) ≡ some r
      → TakenFirst (OfClass f) locked i rows r
  best-TakenFirst f rows r e =
      let (m, w, c) =
        candidate-MayBeTaken f rows r (best-mem older (walkin_candidates locked i f rows) r e) in
      let least =
        best-le older (λ x y z p q. ground arith) (λ x y p. ground arith) (λ x. ground arith)
          (walkin_candidates locked i f rows) r e in
      record {
        member = m;
        is_walkin = w;
        is_class = c;
        oldest = λ y n v d.
            let k : older y r ≡ false =
              mem-All (λ (z : TicketRow). older z r ≡ false) y (walkin_candidates locked i f rows)
                (walkin-candidate f rows y n v d) least in
            ground (arith, k);
      }

  -- One that could be taken is enough for one to be taken.
  first :
      (f : ClassFilter) (rows : List TicketRow) (x : TicketRow)
      → Memᴰ x rows
      → MayBeTaken locked i x
      → OfClass f x
      → (r : TicketRow) × (best older (walkin_candidates locked i f rows) ≡ some r)
  first f rows x m w c = elim (Option-cases (best older (walkin_candidates locked i f rows))) [
    | inl e ↦ absurd (
        not-nil (
          subst (Memᴰ x) (best-none older (walkin_candidates locked i f rows) e)
            (walkin-candidate f rows x m w c)))
    | inr k ↦ k
  ]

  none_waits :
      (f : ClassFilter) (rows : List TicketRow)
      → ((y : TicketRow) → Memᴰ y rows → MayBeTaken locked i y → OfClass f y → ⊥)
      → best older (walkin_candidates locked i f rows) ≡ none
  none_waits f rows h = elim (Option-cases (best older (walkin_candidates locked i f rows))) [
    | inl e ↦ e
    | inr (r, e) ↦
        let (m, w, c) =
          candidate-MayBeTaken f rows r (best-mem older (walkin_candidates locked i f rows) r e) in
        absurd (h r m w c)
  ]

of_preferred : (b : Bool) (x : TicketRow) → HasRightClass b x → OfClass (preferred b) x
of_preferred true x h = h
of_preferred false x h = h

to_preferred : (b : Bool) (x : TicketRow) → OfClass (preferred b) x → HasRightClass b x
to_preferred true x h = h
to_preferred false x h = h

first_preferred :
    (b : Bool) (locked : String → Bool) (i : CallNextInput) (rows : List TicketRow) (r : TicketRow)
    → TakenFirst (OfClass (preferred b)) locked i rows r
    → TakenFirst (HasRightClass b) locked i rows r
first_preferred true locked i rows r h = record {
  member = h.member;
  is_walkin = h.is_walkin;
  is_class = h.is_class;
  oldest = h.oldest;
}
first_preferred false locked i rows r h = record {
  member = h.member;
  is_walkin = h.is_walkin;
  is_class = h.is_class;
  oldest = h.oldest;
}

first_any :
    (locked : String → Bool) (i : CallNextInput) (rows : List TicketRow) (r : TicketRow)
    → TakenFirst (OfClass any_class) locked i rows r
    → TakenFirst HasSomeClass locked i rows r
first_any locked i rows r h = record {
  member = h.member;
  is_walkin = h.is_walkin;
  is_class = tt;
  oldest = h.oldest;
}

module _ {B : Type 0} (P : Platform B) (quiet : IsQuiet P) (i : CallNextInput) (time : ℕ)
    (s : State B) where
  -- The first query of `updateNextWalkinTicket` finds a ticket: it is the answer.
  walkin_first :
      (b : Bool) (r : TicketRow)
      → best older (walkin_candidates (P.locked s.tick) i (preferred b) s.db.tickets) ≡ some r
      → HasCalled i time r s (update_next_walkin_ticket P i time b s)
  unfolding update_next_walkin_ticket update_next_walkin_ticket_with_filter or_if_no_rows ◌>>=◌ pure
  walkin_first b r e = simp (statement_quiet P quiet, e) (refl, refl)

  -- The second query of `updateNextWalkinTicket`.
  walkin_second :
      (b : Bool) (r : TicketRow)
      → best older (walkin_candidates (P.locked s.tick) i (preferred b) s.db.tickets) ≡ none
      → best older (walkin_candidates (P.locked (s.tick + 1)) i any_class s.db.tickets) ≡ some r
      → HasCalled i time r s (update_next_walkin_ticket P i time b s)
  unfolding update_next_walkin_ticket update_next_walkin_ticket_with_filter or_if_no_rows ◌>>=◌ pure
      raise
  walkin_second b r n e = simp (statement_quiet P quiet, n, e) (refl, refl)

-- On a database that does not fail: if a ticket waits in the queue of the input, that came without an
-- appointment, is of the preferred class and is not locked by another transaction, then
-- `updateNextWalkinTicket` calls the oldest such: it answers with that row as it is called, at the
-- counter of the input and the given time, writes this to the table, and changes nothing else.
pub walkin_preferred :
    {B : Type 0} (P : Platform B) (i : CallNextInput) (time : ℕ) (b : Bool) (s : State B)
    (x : TicketRow)
    → IsQuiet P
    → Memᴰ x s.db.tickets
    → MayBeTaken (P.locked s.tick) i x
    → HasRightClass b x
    → (r : TicketRow) × TakenFirst (HasRightClass b) (P.locked s.tick) i s.db.tickets r
      × HasCalled i time r s (update_next_walkin_ticket P i time b s)
walkin_preferred P i time b s x quiet m w c =
    let (r, e) = first (P.locked s.tick) i (preferred b) s.db.tickets x m w (of_preferred b x c) in
    (
      r,
      first_preferred b _ i _ r
          (best-TakenFirst (P.locked s.tick) i (preferred b) s.db.tickets r e),
      walkin_first P quiet i time s b r e,
    )

-- On a database that does not fail: if no ticket of the preferred class waits in the queue of the
-- input without an appointment and unlocked, but, when it is asked again, one of some class does,
-- then `updateNextWalkinTicket` calls the oldest of these, in the same way.
pub walkin_fallback :
    {B : Type 0} (P : Platform B) (i : CallNextInput) (time : ℕ) (b : Bool) (s : State B)
    (x : TicketRow)
    → IsQuiet P
    → ((y : TicketRow)
        → Memᴰ y s.db.tickets
        → MayBeTaken (P.locked s.tick) i y
        → HasRightClass b y
        → ⊥)
    → Memᴰ x s.db.tickets
    → MayBeTaken (P.locked (s.tick + 1)) i x
    → (r : TicketRow) × TakenFirst HasSomeClass (P.locked (s.tick + 1)) i s.db.tickets r
      × HasCalled i time r s (update_next_walkin_ticket P i time b s)
walkin_fallback P i time b s x quiet nobody m w =
    let (r, e) = first (P.locked (s.tick + 1)) i any_class s.db.tickets x m w tt in
    let n =
      none_waits (P.locked s.tick) i (preferred b) s.db.tickets
        (λ y k v c. nobody y k v (to_preferred b y c)) in
    (
      r,
      first_any _ i _ r (best-TakenFirst (P.locked (s.tick + 1)) i any_class s.db.tickets r e),
      walkin_second P quiet i time s b r n e,
    )
