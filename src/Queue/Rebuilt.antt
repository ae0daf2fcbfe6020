-- ===== src/Queue/Rebuilt.antt =====
-- store/ticket_events.go: the counter of the ticket that `RehydrateTicket` rebuilds.
use qms.Base.{
  Option, none, some, List, [], ◌∷◌, ◌≡◌, ◌≢◌, refl, ◌⊎◌, inl, inr, Bool-cases, Option-cases, arith,
}
use qms.Queue.Models.{Error, Ticket}
use qms.Queue.Tx.{Platform, Answer, answered, refused}
use qms.Queue.Rehydrate.{TicketEvent, replace, apply_payload, apply_event, rehydrate_from}

Answer-cases :
    {A : Type 0} (o : Answer A) → ((a : A) × (o ≡ answered a)) ⊎ ((e : Error) × (o ≡ refused e))
Answer-cases (answered a) = inl (a, refl)
Answer-cases (refused e) = inr (e, refl)

replace_some : {A : Type 0} (new old : Option A) → old ≢ none → replace new old ≢ none
replace_some none old h = h
replace_some (some a) old h = λ q. cc

module _ {B : Type 0} (P : Platform B) where
  apply_event_counter :
      (e : TicketEvent B) (t t' : Ticket)
      → t.counter_id ≢ none
      → apply_event P e t ≡ answered t'
      → t'.counter_id ≢ none
  unfolding apply_event apply_payload
  apply_event_counter e t t' h q = elim (Bool-cases (P.is_empty e.payload)) [
    | inl b ↦ ground (arith, h, q, b)
    | inr b ↦ elim (Option-cases (P.unmarshal e.payload)) [
      | inl n ↦ absurd (ground (arith, q, b, n))
      | inr (p, n) ↦ ground (arith, q, b, n, replace_some p.counter_id t.counter_id h)
    ]
  ]

-- Once the ticket that `RehydrateTicket` rebuilds has a counter, it has one at the end, whatever events
-- follow, a transfer and a no-show with return to the queue included, if the rebuilding succeeds.
pub rehydrate_from_counter :
    {B : Type 0} (P : Platform B) (es : List (TicketEvent B)) (t t' : Ticket)
    → t.counter_id ≢ none
    → rehydrate_from P t es ≡ answered t'
    → t'.counter_id ≢ none
unfolding rehydrate_from
rehydrate_from_counter P [] t t' h q = ground (arith, h, q)
rehydrate_from_counter P (e ∷ es) t t' h q = elim (Answer-cases (apply_event P e t)) [
  | inl (u, a) ↦
      rehydrate_from_counter P es u t' (apply_event_counter P e t u h a)
        (rw (a, rehydrate_from) at q)
  | inr (x, a) ↦ absurd (ground (arith, q, a))
]
