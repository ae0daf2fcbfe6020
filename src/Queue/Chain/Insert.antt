-- ===== src/Queue/Chain/Insert.antt =====
-- store/postgres/store.go: `insertTicketEvent` and the log of events.
use qms.Base.{
  ℕ, String, Bool, Option, some, [], ◌∷◌, ◌++◌, ◌≡◌, refl, Bool-cases, inl, inr, arith, subst,
}
use qms.Queue.Models.{Ticket, Error}
use qms.Queue.Payload.{Object}
use qms.Queue.Db.{Db, EventRow, OutboxEvent}
use qms.Queue.Tx.{Platform, State, Tx, Answer, ◌>>=◌, query, statement, now, next_tick}
use qms.Queue.Tx.Keeps.{
  Keeps, keeps_rules, Keeps-statement, Keeps-exec, Keeps-bind, Keeps-pure, finish_at,
}
use qms.Queue.Rows.{not_found, found_empty, found, find_action_request}
use qms.Queue.Events.{
  append_event, add_outbox, insert_ticket_event, insert_event, last_event, seq_of, hash_of,
}
use qms.Queue.Requests.{add_action_request, insert_action_request, unless_repeated}
use qms.Queue.Chain.Linked.{Follows, IsChained, IsChained-append_one}

module _ {B : Type 0} (P : Platform B) where
  abbrev pub Chained : Db B → Type 0
  Chained d = IsChained P d.ticket_events

  -- The second half may rely on what the query has read.
  query_bind :
      {A C : Type 0} (f : Db B → A) (k : A → Tx B C)
      → ((s : State B) → Chained s.db → Chained (k (f s.db) s).1.db)
      → Keeps Chained (query P f >>= k)
  unfolding query statement ◌>>=◌
  query_bind f k h = record {
    at = λ s c. elim (Bool-cases (P.fails s.tick)) [
      | inl e ↦ rw e c
      | inr e ↦ rw e (h (next_tick s) c)
    ];
  }

  append_event-Chained :
      (e : EventRow B) (d : Db B) (u : Unit {0}) (d' : Db B)
      → Follows P e.ticket_id
          (hash_of (last_event e.ticket_id d.ticket_events))
          (seq_of (last_event e.ticket_id d.ticket_events))
          e
      → Chained d
      → append_event e d ≡ some (u, d')
      → Chained d'
  unfolding append_event
  append_event-Chained e d u d' f c h =
      subst (IsChained P) {x = d.ticket_events ++ (e ∷ [])} {y = d'.ticket_events} (ground arith)
        (IsChained-append_one P d.ticket_events e c f)

  append_statement :
      (e : EventRow B) (s : State B)
      → Follows P e.ticket_id
          (hash_of (last_event e.ticket_id s.db.ticket_events))
          (seq_of (last_event e.ticket_id s.db.ticket_events))
          e
      → Chained s.db
      → Chained (statement P (λ _ d. append_event e d) s).1.db
  unfolding statement
  append_statement e s f c = elim (Bool-cases (P.fails s.tick)) [
    | inl t ↦ rw t c
    | inr t ↦ rw t (
        finish_at P {Q = Chained} (append_event e s.db) s
          (λ u d' h. append_event-Chained e s.db u d' f c h) c)
  ]

  pub insert_ticket_event-Chained :
      (id type : String) (payload : B) → Keeps Chained (insert_ticket_event P id type payload)
  unfolding insert_ticket_event ◌>>=◌ now
  insert_ticket_event-Chained id type payload = Keeps-bind _ _ (Keeps-exec P _ (λ d h. h)) (λ _.
      query_bind _ _ (λ s c. append_statement _ _ (refl, refl, (payload, _, refl, refl, refl)) c))

  -- A statement that leaves the log alone.
  pub untouched :
      {A : Type 0} (g : ℕ → Db B → Option (A × Db B))
      → ((t : ℕ) (d : Db B) (a : A) (d' : Db B)
          → g t d ≡ some (a, d')
          → d.ticket_events ≡ d'.ticket_events)
      → Keeps Chained (statement P g)
  untouched g h = Keeps-statement P g (λ t d c a d' e. subst (IsChained P) (h t d a d' e) c)

  add_outbox-Chained : (e : OutboxEvent B) → Keeps Chained (statement P (λ _ d. add_outbox e d))
  unfolding add_outbox
  add_outbox-Chained e = untouched _ (λ t d a d' h. ground arith)

  pub insert_event-Chained :
      (tenant type id : String) (o : Object) → Keeps Chained (insert_event P tenant type id o)
  unfolding insert_event
  insert_event-Chained tenant type id o =
      search (keeps_rules, add_outbox-Chained, insert_ticket_event-Chained) depth 12

  pub insert_action_request-Chained :
      (a b c d e f g : String) → Keeps Chained (insert_action_request P a b c d e f g)
  unfolding insert_action_request add_action_request
  insert_action_request-Chained a b c d e f g =
      Keeps-exec P _ (λ d h. subst (IsChained P) (ground arith) h)

  pub unless_repeated-Chained :
      (a r : String) (x : Error) (m : Tx B (Answer (Ticket × Bool)))
      → Keeps Chained m
      → Keeps Chained (unless_repeated P a r x m)
  unfolding unless_repeated find_action_request
  unless_repeated-Chained a r x m km =
      Keeps-bind _ _ (search keeps_rules depth 12)
        (elim [ not_found ↦ km | found_empty ↦ Keeps-pure _ | found t ↦ Keeps-pure _ ])
