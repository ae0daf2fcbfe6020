-- ===== src/Http/Effects/Queries.antt =====
-- services/queue-service/internal/httpapi: the checks and the handlers that only read.
use qms.Base.{ℕ, String, Bool, Option, none, some}
use qms.Base.Int.{ℤ}
use qms.Queue.Tx.{Platform}
use qms.Queue.Tx.Keeps.{keeps_rules}
use qms.Queue.Reads.{
  get_ticket, list_queue, snapshot_tickets, get_active_ticket, list_outbox_events,
  list_ticket_events, list_counters, list_services,
}
use qms.Http.Messages.{HttpRequest, Parsers}
use qms.Http.Web.{ask}
use qms.Http.Auth.{AuthInfo, require_tenant, require_branch_access, require_service_access}
use qms.Http.Decode.{decode_action, decode_transfer}
use qms.Http.Reads.{
  handle_ticket_snapshot, handle_active_ticket, handle_events, handle_counters, handle_services,
  handle_get_ticket, handle_ticket_events, handle_queues,
}
use qms.Http.Effects.{Idle, idle_rules, Idle-ask}

module _ {B : Type 0} (P : Platform B) where
  Idle-get_ticket : (t b i : String) → Idle (ask (get_ticket P t b i))
  unfolding get_ticket
  Idle-get_ticket t b i = Idle-ask _ (λ d. search keeps_rules depth 12)

  Idle-list_queue : (t b v : String) → Idle (ask (list_queue P t b v))
  unfolding list_queue
  Idle-list_queue t b v = Idle-ask _ (λ d. search keeps_rules depth 12)

  Idle-snapshot_tickets : (t b v : String) → Idle (ask (snapshot_tickets P t b v))
  unfolding snapshot_tickets
  Idle-snapshot_tickets t b v = Idle-ask _ (λ d. search keeps_rules depth 12)

  Idle-get_active_ticket : (t b c : String) → Idle (ask (get_active_ticket P t b c))
  unfolding get_active_ticket
  Idle-get_active_ticket t b c = Idle-ask _ (λ d. search keeps_rules depth 12)

  Idle-list_outbox_events : (t : String) (a : ℕ) (n : ℤ) → Idle (ask (list_outbox_events P t a n))
  unfolding list_outbox_events
  Idle-list_outbox_events t a n = Idle-ask _ (λ d. search keeps_rules depth 12)

  Idle-list_ticket_events : (t i : String) → Idle (ask (list_ticket_events P t i))
  unfolding list_ticket_events
  Idle-list_ticket_events t i = Idle-ask _ (λ d. search keeps_rules depth 12)

  Idle-list_counters :
      (o : String → String → Bool) (t b : String) → Idle (ask (list_counters P o t b))
  unfolding list_counters
  Idle-list_counters o t b = Idle-ask _ (λ d. search keeps_rules depth 12)

  Idle-list_services :
      (o : String → String → Bool) (t b : String) → Idle (ask (list_services P o t b))
  unfolding list_services
  Idle-list_services o t b = Idle-ask _ (λ d. search keeps_rules depth 12)

module _ {B : Type 0} (P : Platform B) (T : Parsers) (r : HttpRequest) where
  pub Idle-require_tenant : (i : Option AuthInfo) (t : String) → Idle (require_tenant P T r i t)
  unfolding require_tenant
  Idle-require_tenant none t = search idle_rules
  Idle-require_tenant (some i) t = search idle_rules

  pub Idle-require_branch_access :
      (i : Option AuthInfo) (b : String) → Idle (require_branch_access P T r i b)
  unfolding require_branch_access
  Idle-require_branch_access none b = search idle_rules
  Idle-require_branch_access (some i) b = search idle_rules

  pub Idle-require_service_access :
      (i : Option AuthInfo) (v : String) → Idle (require_service_access P T r i v)
  unfolding require_service_access
  Idle-require_service_access none v = search idle_rules
  Idle-require_service_access (some i) v = search idle_rules

  pub Idle-decode_action : Idle (decode_action P T r)
  unfolding decode_action
  Idle-decode_action = search idle_rules depth 12

  pub Idle-decode_transfer : Idle (decode_transfer P T r)
  unfolding decode_transfer
  Idle-decode_transfer = search idle_rules depth 12

  ruleset checks =
      (idle_rules, Idle-require_tenant, Idle-require_branch_access, Idle-require_service_access)

  pub Idle-handle_ticket_snapshot : (i : Option AuthInfo) → Idle (handle_ticket_snapshot P T r i)
  unfolding handle_ticket_snapshot
  Idle-handle_ticket_snapshot i = search (checks, Idle-snapshot_tickets P) depth 20

  pub Idle-handle_active_ticket : (i : Option AuthInfo) → Idle (handle_active_ticket P T r i)
  unfolding handle_active_ticket
  Idle-handle_active_ticket i = search (checks, Idle-get_active_ticket P) depth 20

  pub Idle-handle_events : (i : Option AuthInfo) → Idle (handle_events P T r i)
  unfolding handle_events
  Idle-handle_events i = search (checks, Idle-list_outbox_events P) depth 20

  pub Idle-handle_counters : (i : Option AuthInfo) → Idle (handle_counters P T r i)
  unfolding handle_counters
  Idle-handle_counters i = search (checks, Idle-list_counters P) depth 20

  pub Idle-handle_services : Idle (handle_services P T r)
  unfolding handle_services
  Idle-handle_services = search (checks, Idle-list_services P) depth 20

  pub Idle-handle_get_ticket :
      (i : Option AuthInfo) (t : String) → Idle (handle_get_ticket P T r i t)
  unfolding handle_get_ticket
  Idle-handle_get_ticket i t = search (checks, Idle-get_ticket P) depth 20

  pub Idle-handle_ticket_events :
      (i : Option AuthInfo) (t : String) → Idle (handle_ticket_events P T r i t)
  unfolding handle_ticket_events
  Idle-handle_ticket_events i t = search (checks, Idle-list_ticket_events P) depth 20

  pub Idle-handle_queues : (i : Option AuthInfo) → Idle (handle_queues P T r i)
  unfolding handle_queues
  Idle-handle_queues i = search (checks, Idle-list_queue P) depth 20
