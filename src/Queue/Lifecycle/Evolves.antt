-- ===== src/Queue/Lifecycle/Evolves.antt =====
-- One operation's effect on the table of tickets, row by row.
use mathlib.Core.List.{Memᴰ}
use mathlib.Core.List.Memᴰ.{cases_cons}
use qms.Base.{
  String, Bool, true, ◌≡◌, refl, sym, ap, ◌∙◌, ◌≢◌, ◌⊎◌, inl, inr, List, [], ◌∷◌, ◌=?◌, All, update,
  Bool-cases, arith, eq_iff, mem-All, All-map,
}
use qms.Queue.Models.{Status, status_text, waiting, called, serving, done, no_show, cancelled, held}
use qms.Queue.Transitions.{valid_transition}
use qms.Queue.Db.{TicketRow}

-- What no operation changes.
pub record SameTicket (x y : TicketRow) : Type 0 where
  pub ticket_id : y.ticket_id ≡ x.ticket_id
  pub request_id : y.request_id ≡ x.request_id
  pub ticket_number : y.ticket_number ≡ x.ticket_number
  pub tenant_id : y.tenant_id ≡ x.tenant_id
  pub branch_id : y.branch_id ≡ x.branch_id
  pub created_at : y.created_at ≡ x.created_at
  pub priority_class : y.priority_class ≡ x.priority_class

-- The transition table of the store has the status as a source of the action.
abbrev pub Allowed : String → Status → Type 0
Allowed action s = valid_transition action (status_text s) ≡ true

-- Where an action leads, which the source states in each UPDATE.
pub data Target : String → Status → Type 0 where
  to_called : Target "call_next" called
  to_serving : Target "start_serving" serving
  to_done : Target "complete" done
  to_cancelled : Target "cancel" cancelled
  to_held : Target "hold" held
  to_waiting : Target "unhold" waiting
  to_queue : Target "transfer" waiting
  to_no_show : Target "no_show" no_show
  to_return : Target "no_show" waiting

-- A row is untouched, or its ticket took a step that the table allows.
abbrev pub Evolved : String → TicketRow → TicketRow → Type 0
Evolved action x y = (y ≡ x) ⊎ (Allowed action x.status × Target action y.status × SameTicket x y)

abbrev pub Evolves : String → List TicketRow → List TicketRow → Type 0
Evolves action [] [] = Unit
Evolves action (x ∷ xs) (y ∷ ys) = Evolved action x y × Evolves action xs ys
Evolves action _ _ = ⊥

-- No two rows have one `ticket_id`, the primary key.
abbrev pub Unique : List TicketRow → Type 0
Unique [] = Unit
Unique (x ∷ xs) = All (λ (y : TicketRow). y.ticket_id ≢ x.ticket_id) xs × Unique xs

pub Evolves-refl : (a : String) (xs : List TicketRow) → Evolves a xs xs
Evolves-refl a [] = tt
Evolves-refl a (x ∷ xs) = (inl refl, Evolves-refl a xs)

same_refl : (x : TicketRow) → SameTicket x x
same_refl x = ground arith

Evolved-id : (a : String) (x y : TicketRow) → Evolved a x y → y.ticket_id ≡ x.ticket_id
Evolved-id a x y (inl e) = ap (λ (r : TicketRow). r.ticket_id) e
Evolved-id a x y (inr (_, _, s)) = s.ticket_id

pub Evolved-same : (a : String) (x y : TicketRow) → Evolved a x y → SameTicket x y
Evolved-same a x y (inl e) = rw e (same_refl x)
Evolved-same a x y (inr (_, _, s)) = s

All-Evolves :
    (a id : String) (xs ys : List TicketRow)
    → Evolves a xs ys
    → All (λ (y : TicketRow). y.ticket_id ≢ id) xs
    → All (λ (y : TicketRow). y.ticket_id ≢ id) ys
All-Evolves a id [] [] e h = tt
All-Evolves a id [] (y ∷ ys) e h = absurd e
All-Evolves a id (x ∷ xs) [] e h = absurd e
All-Evolves a id (x ∷ xs) (y ∷ ys) e h =
    (λ q. h.0 (sym (Evolved-id a x y e.0) ∙ q), All-Evolves a id xs ys e.1 h.1)

-- An operation adds no second row for a ticket.
pub Evolves-Unique : (a : String) (xs ys : List TicketRow) → Evolves a xs ys → Unique xs → Unique ys
Evolves-Unique a [] [] e u = tt
Evolves-Unique a [] (y ∷ ys) e u = absurd e
Evolves-Unique a (x ∷ xs) [] e u = absurd e
Evolves-Unique a (x ∷ xs) (y ∷ ys) e u = (
  rw (Evolved-id a x y e.0) (All-Evolves a x.ticket_id xs ys e.1 u.0),
  Evolves-Unique a xs ys e.1 u.1,
)

SameTicket-trans : (x y z : TicketRow) → SameTicket x y → SameTicket y z → SameTicket x z
SameTicket-trans x y z h k = record {
  ticket_id = k.ticket_id ∙ h.ticket_id;
  request_id = k.request_id ∙ h.request_id;
  ticket_number = k.ticket_number ∙ h.ticket_number;
  tenant_id = k.tenant_id ∙ h.tenant_id;
  branch_id = k.branch_id ∙ h.branch_id;
  created_at = k.created_at ∙ h.created_at;
  priority_class = k.priority_class ∙ h.priority_class;
}

module _ (a : String) (p : TicketRow → Bool) (f : TicketRow → TicketRow) where
  -- What an UPDATE must satisfy: the rows that it meets have a status that the table allows.
  pub record Moves : Type 0 where
    pub same : (r : TicketRow) → SameTicket r (f r)
    pub target : (r : TicketRow) → Target a (f r).status

  Evolved-move : (x y : TicketRow) → Moves → Allowed a y.status → Evolved a x y → Evolved a x (f y)
  Evolved-move x y m h (inl e) = inr (rw (← e) h, m.target y, rw (← e) (m.same y))
  Evolved-move x y m h (inr (k, _, s)) =
      inr (k, m.target y, SameTicket-trans x y (f y) s (m.same y))

  pub Evolves-update :
      (xs ys : List TicketRow)
      → Moves
      → All (λ (r : TicketRow). p r ≡ true → Allowed a r.status) ys
      → Evolves a xs ys
      → Evolves a xs (update p f ys)
  unfolding update
  Evolves-update [] [] m h e = tt
  Evolves-update [] (y ∷ ys) m h e = absurd e
  Evolves-update (x ∷ xs) [] m h e = absurd e
  Evolves-update (x ∷ xs) (y ∷ ys) m h e = elim (Bool-cases (p y)) [
    | inl t ↦ rw t (Evolved-move x y m (h.0 t) e.0, Evolves-update xs ys m h.1 e.1)
    | inr t ↦ rw t (e.0, Evolves-update xs ys m h.1 e.1)
  ]

moved_again :
    (a : String) (p : TicketRow → Bool) (f : TicketRow → TicketRow) (x y : TicketRow)
    → Moves a p f
    → Allowed a x.status
    → Evolved a x y
    → Evolved a x (f y)
moved_again a p f x y m h e =
    inr (h, m.target y, SameTicket-trans x y (f y) (Evolved-same a x y e) (m.same y))

-- An UPDATE by key, of a ticket that had an allowed status when the operation began.
pub Evolves-update_key :
    (a id : String) (f : TicketRow → TicketRow) (xs ys : List TicketRow)
    → Moves a (λ (t : TicketRow). t.ticket_id =? id) f
    → All (λ (x : TicketRow). (x.ticket_id =? id) ≡ true → Allowed a x.status) xs
    → Evolves a xs ys
    → Evolves a xs (update (λ (t : TicketRow). t.ticket_id =? id) f ys)
unfolding update
Evolves-update_key a id f [] [] m h e = tt
Evolves-update_key a id f [] (y ∷ ys) m h e = absurd e
Evolves-update_key a id f (x ∷ xs) [] m h e = absurd e
Evolves-update_key a id f (x ∷ xs) (y ∷ ys) m h e = elim (Bool-cases (y.ticket_id =? id)) [
  | inl t ↦ rw t (
    moved_again a (λ (t : TicketRow). t.ticket_id =? id) f x y m
        (h.0 (rw (← Evolved-id a x y e.0) t)) e.0,
    Evolves-update_key a id f xs ys m h.1 e.1,
  )
  | inr t ↦ rw t (e.0, Evolves-update_key a id f xs ys m h.1 e.1)
]

-- In a table with unique keys, the row of a key is the only one.
pub same_key :
    (r : TicketRow) (xs : List TicketRow)
    → Unique xs
    → Memᴰ r xs
    → All (λ (t : TicketRow). (t.ticket_id =? r.ticket_id) ≡ true → t ≡ r) xs
same_key r [] u m = tt
same_key r (x ∷ xs) u m = elim (cases_cons m) [
  | inl e ↦ (
    λ _. sym e,
    All-map (λ (t : TicketRow). t.ticket_id ≢ x.ticket_id)
        (λ (t : TicketRow). (t.ticket_id =? r.ticket_id) ≡ true → t ≡ r)
        (λ t n q. absurd (n ((eq_iff _ _).0 q ∙ ap (λ (k : TicketRow). k.ticket_id) e))) xs u.0,
  )
  | inr j ↦ (
    λ q. absurd (
        mem-All (λ (t : TicketRow). t.ticket_id ≢ x.ticket_id) r xs j u.0 (sym ((eq_iff _ _).0 q))),
    same_key r xs u.1 j,
  )
]
