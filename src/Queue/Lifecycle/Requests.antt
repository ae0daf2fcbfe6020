-- ===== src/Queue/Lifecycle/Requests.antt =====
-- store/store.go: the requests of `TicketStore` and the transition table.
use mathlib.Core.List.{append-nil}
use qms.Base.{String, List, [], ◌++◌, ◌≡◌, sym, All, Bool-cases, inl, inr}
use qms.Base.Int.{ℤ, is_positive}
use qms.Queue.Models.{Status, waiting, status_text, TicketActionInput}
use qms.Queue.Transitions.{valid_transition}
use qms.Queue.Db.{TicketRow}
use qms.Queue.Tx.{Platform, State}
use qms.Queue.Tx.Keeps.{transact-Keeps, transact_at}
use qms.Queue.Create.{create_ticket, check_in_appointment}
use qms.Queue.CallNext.{call_next}
use qms.Queue.Actions.{
  StatusChange, update_ticket_status, emit_ticket_event, apply_no_show, transfer_ticket,
}
use qms.Queue.Operations.{
  Config, start_serving, complete_ticket, cancel_ticket, hold_ticket, unhold_ticket, no_show_ticket,
  recall_ticket,
}
use qms.Queue.AutoNoShow.{auto_no_show}
use qms.Queue.Service.{
  TicketRequest, Request, create, check_in, act, call, start, complete, cancel, hold, unhold,
  recall, transfer, no_show, sweep, perform, serve,
}
use qms.Queue.Lifecycle.Evolves.{Unique, Evolves, Evolves-refl, Evolves-Unique}
use qms.Queue.Lifecycle.Steps.{IsDeclared}
use qms.Queue.Lifecycle.Actions.{
  start_serving_IsDeclared, complete_IsDeclared, cancel_IsDeclared, hold_IsDeclared,
  unhold_IsDeclared, change_body-Follows, emit_body-Follows, no_show_body-Follows,
  transfer_body-Follows,
}
use qms.Queue.Lifecycle.CallNext.{call_body-Follows}
use qms.Queue.Lifecycle.Sweep.{auto_body-Follows}
use qms.Queue.Lifecycle.Create.{Grown, Grown-refl, create_body-Grows, check_in_body-Grows}

-- The name that the transition table has for an operation.
abbrev pub action_name : TicketRequest → String
action_name (call i) = "call_next"
action_name (start i) = "start_serving"
action_name (complete i) = "complete"
action_name (cancel i) = "cancel"
action_name (hold i) = "hold"
action_name (unhold i) = "unhold"
action_name (recall i) = "recall"
action_name (transfer i) = "transfer"
action_name (no_show i) = "no_show"

-- The two requests that add a ticket have no such name.
abbrev pub action_of : Request → String
action_of (create i) = "create"
action_of (check_in a b c d) = "check_in"
action_of (act r) = action_name r
action_of (sweep g b) = "no_show"

-- The rows of before have evolved by the action, and those added behind them are waiting.
pub record Continues (action : String) (before after : List TicketRow) : Type 0 where
  pub kept : List TicketRow
  pub new : List TicketRow
  pub grown : after ≡ kept ++ new
  pub evolved : Evolves action before kept
  pub waiting_new : All (λ (r : TicketRow). r.status ≡ waiting) new
  pub unique : Unique after

Continues-Evolves :
    (a : String) (xs ys : List TicketRow) → Unique xs → Evolves a xs ys → Continues a xs ys
Continues-Evolves a xs ys u e = record {
  kept = ys;
  new = [];
  grown = sym (append-nil ys);
  evolved = e;
  waiting_new = tt;
  unique = Evolves-Unique a xs ys e u;
}

Continues-Grown : (a : String) (xs ys : List TicketRow) → Grown xs ys → Continues a xs ys
Continues-Grown a xs ys g = record {
  kept = xs;
  new = g.new;
  grown = g.grown;
  evolved = Evolves-refl a xs;
  waiting_new = g.waiting_new;
  unique = g.unique;
}

module _ {B : Type 0} (P : Platform B) (s : State B) where
  update_ticket_status-Evolves :
      (c : StatusChange) (i : TicketActionInput)
      → IsDeclared c
      → Evolves c.action s.db.tickets (update_ticket_status P c i s).after.db.tickets
  unfolding update_ticket_status
  update_ticket_status-Evolves c i h = rw h.allowed (
      transact-Keeps P _ s (change_body-Follows P s.db.tickets c i h)
        (Evolves-refl c.action s.db.tickets))

  emit_ticket_event-Evolves :
      (a : String) (x : Status) (e : String) (i : TicketActionInput)
      → Evolves a s.db.tickets (emit_ticket_event P a x e i s).after.db.tickets
  unfolding emit_ticket_event
  emit_ticket_event-Evolves a x e i = elim (Bool-cases (valid_transition a (status_text x))) [
    | inl t ↦ rw t (
        transact-Keeps P _ s (emit_body-Follows P s.db.tickets a x e i)
          (Evolves-refl a s.db.tickets))
    | inr t ↦ rw t (Evolves-refl a s.db.tickets)
  ]

  auto_no_show-Evolves :
      (c : Config) (g b : ℤ)
      → Unique s.db.tickets
      → Evolves "no_show" s.db.tickets (auto_no_show P c g b s).after.db.tickets
  unfolding auto_no_show
  auto_no_show-Evolves c g b u = elim (Bool-cases (is_positive g)) [
    | inl t ↦ rw t (
        transact_at P (λ d. Evolves "no_show" s.db.tickets d.tickets) _ s
          (Evolves-refl "no_show" s.db.tickets) (auto_body-Follows P c g _ _ u))
    | inr t ↦ rw t (Evolves-refl "no_show" s.db.tickets)
  ]

module _ {B : Type 0} (P : Platform B) (c : Config) (s : State B) where
  perform-Evolves :
      (r : TicketRequest)
      → Unique s.db.tickets
      → Evolves (action_name r) s.db.tickets (perform P c r s).after.db.tickets
  unfolding perform call_next start_serving complete_ticket cancel_ticket hold_ticket unhold_ticket
      no_show_ticket recall_ticket apply_no_show transfer_ticket
  perform-Evolves (call i) u =
      transact-Keeps P _ s (call_body-Follows P c.priority_streak_limit s.db.tickets u i)
        (Evolves-refl _ s.db.tickets)
  perform-Evolves (start i) u = update_ticket_status-Evolves P s _ i start_serving_IsDeclared
  perform-Evolves (complete i) u = update_ticket_status-Evolves P s _ i complete_IsDeclared
  perform-Evolves (cancel i) u = update_ticket_status-Evolves P s _ i cancel_IsDeclared
  perform-Evolves (hold i) u = update_ticket_status-Evolves P s _ i hold_IsDeclared
  perform-Evolves (unhold i) u = update_ticket_status-Evolves P s _ i unhold_IsDeclared
  perform-Evolves (recall i) u = emit_ticket_event-Evolves P s _ _ _ i
  perform-Evolves (transfer i) u =
      transact-Keeps P _ s (transfer_body-Follows P s.db.tickets i) (Evolves-refl _ s.db.tickets)
  perform-Evolves (no_show i) u =
      transact-Keeps P _ s (no_show_body-Follows P s.db.tickets i.return_to_queue i)
        (Evolves-refl _ s.db.tickets)

-- If no two tickets have one key, then whatever the request, its answer and the failures on the way:
-- every ticket that was there is untouched, or took one step that the transition table allows for
-- the request's action, to a status that the action leads to, with its identity kept; tickets that
-- were added are waiting; and again no two tickets have one key.
pub serve-Continues :
    {B : Type 0} (P : Platform B) (c : Config) (r : Request) (s : State B)
    → Unique s.db.tickets
    → Continues (action_of r) s.db.tickets (serve P c r s).db.tickets
unfolding serve create_ticket check_in_appointment
serve-Continues P c (create i) s u =
    Continues-Grown _ _ _
      (transact-Keeps P _ s (create_body-Grows P s.db.tickets i) (Grown-refl s.db.tickets u))
serve-Continues P c (check_in x y z w) s u =
    Continues-Grown _ _ _ (
      transact-Keeps P _ s (check_in_body-Grows P s.db.tickets x y z w) (Grown-refl s.db.tickets u))
serve-Continues P c (act r) s u = Continues-Evolves _ _ _ u (perform-Evolves P c s r u)
serve-Continues P c (sweep g b) s u = Continues-Evolves _ _ _ u (auto_no_show-Evolves P s c g b u)
