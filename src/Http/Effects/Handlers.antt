-- ===== src/Http/Effects/Handlers.antt =====
-- services/queue-service/internal/httpapi/handler.go: the handlers that change the database.
use qms.Base.{String, Bool, Option, ◌≡◌, refl, ap}
use qms.Queue.Models.{no_ticket, Ticket, TicketActionInput}
use qms.Queue.Tx.{Platform, State, Done, Answer, answered, refused}
use qms.Queue.Operations.{Config}
use qms.Queue.Service.{
  TicketRequest, create, check_in, act, call, start, complete, cancel, hold, unhold, recall,
  transfer, no_show, serve, perform,
}
use qms.Http.Messages.{HttpRequest, Parsers, CallNextRequest, CheckInRequest, Response}
use qms.Http.Web.{Web, ◌>>=◌}
use qms.Http.Auth.{AuthInfo, require_branch_access}
use qms.Http.Writes.{
  read_create, handle_tickets, read_call_next, or_queue_empty, handle_call_next, read_check_in,
  handle_appointment_checkin,
}
use qms.Http.Actions.{
  run_action, handle_simple, handle_complete_ticket, handle_cancel_ticket, handle_recall_ticket,
  handle_hold_ticket, handle_unhold_ticket, handle_no_show_ticket, handle_start_serving,
  handle_transfer_ticket,
}
use qms.Http.Effects.{
  Idle, idle_rules, Idle-pure, Idle-respond, Idle-now, AtMostOne, AtMostOne-bind, AtMostOne-submit,
}
use qms.Http.Effects.Queries.{Idle-require_branch_access, Idle-decode_action, Idle-decode_transfer}
use qms.Http.Effects.Yields.{Yields, Yields-bind, Yields-skip, Yields-pure, AtMostOne-after}
use qms.Http.Effects.Admitted.{
  IsTenant, HasBranch, HasService, Admits, Yields-require_tenant, Yields-require_branch_access,
  Yields-require_service_access,
}

module _ {B : Type 0} (P : Platform B) (T : Parsers) (r : HttpRequest)
    (info : Option AuthInfo) where
  Yields-read_call_next :
      Yields
        (λ (q : CallNextRequest).
          IsTenant info q.tenant_id × HasBranch info q.branch_id × HasService info q.service_id)
        (read_call_next P T r info)
  unfolding read_call_next
  Yields-read_call_next = Yields-skip _ _ _ (search idle_rules) λ a.
      Yields-skip _ _ _ (search idle_rules) λ b. Yields-skip _ _ _ (search idle_rules) λ d.
        Yields-skip _ _ _ (search idle_rules) λ e.
          Yields-bind _ _ _ _ (Yields-require_tenant P T r info _) λ f tenant.
            Yields-bind _ _ _ _ (Yields-require_branch_access P T r info _) λ g branch.
              Yields-bind _ _ _ _ (Yields-require_service_access P T r info _)
                λ h service. Yields-pure _ _ (tenant, branch, service)

  Yields-read_check_in :
      Yields
        (λ (q : CheckInRequest). IsTenant info q.tenant_id × HasBranch info q.branch_id)
        (read_check_in P T r info)
  unfolding read_check_in
  Yields-read_check_in = Yields-skip _ _ _ (search idle_rules) λ a.
      Yields-skip _ _ _ (search idle_rules) λ b. Yields-skip _ _ _ (search idle_rules) λ d.
        Yields-skip _ _ _ (search idle_rules) λ e.
          Yields-bind _ _ _ _ (Yields-require_tenant P T r info _) λ f tenant.
            Yields-bind _ _ _ _ (Yields-require_branch_access P T r info _)
              λ g branch. Yields-pure _ _ (tenant, branch)

  Idle-read_create : Idle (read_create P T r)
  unfolding read_create
  Idle-read_create = search idle_rules depth 20

  Idle-or_queue_empty :
      (id : String) (a : Answer (Ticket × Bool)) → Idle (or_queue_empty P T r id a)
  Idle-or_queue_empty id (answered t) = Idle-pure t
  Idle-or_queue_empty id (refused no_ticket) = Idle-respond _
  Idle-or_queue_empty id (refused e) = Idle-respond _

  module _ (c : Config) where
    pub AtMostOne-handle_tickets : AtMostOne P c (Admits info) (handle_tickets P T r)
    unfolding handle_tickets serve
    AtMostOne-handle_tickets = AtMostOne-bind P c _ _ _ Idle-read_create λ req.
        AtMostOne-bind P c _ _ _ (Idle-now P) λ time.
          AtMostOne-submit P c _ _ _ (create _) tt (λ s. refl) λ a. search idle_rules depth 12

    pub AtMostOne-handle_call_next : AtMostOne P c (Admits info) (handle_call_next P T r c info)
    unfolding handle_call_next serve perform
    AtMostOne-handle_call_next = AtMostOne-after _ P c _ _ _ Yields-read_call_next λ req allowed.
        AtMostOne-bind P c _ _ _ (Idle-now P) λ time.
          AtMostOne-submit P c _ _ _ (act (call _)) allowed (λ s. refl)
            λ a. search (idle_rules, Idle-or_queue_empty) depth 12

    pub AtMostOne-handle_appointment_checkin :
        AtMostOne P c (Admits info) (handle_appointment_checkin P T r info)
    unfolding handle_appointment_checkin serve
    AtMostOne-handle_appointment_checkin =
        AtMostOne-after _ P c _ _ _ Yields-read_check_in λ req allowed.
          AtMostOne-submit P c _ _ _ (check_in _ _ _ _) allowed (λ s. refl)
            λ a. search idle_rules depth 12

    run_one :
        (id : String) (op : TicketActionInput → State B → Done B (Ticket × Bool))
        (input : TicketActionInput) (q : TicketRequest)
        → Admits info (act q)
        → ((s : State B) → perform P c q s ≡ op input s)
        → AtMostOne P c (Admits info) (run_action P T r id op input)
    unfolding run_action serve
    run_one id op input q allowed same =
        AtMostOne-submit P c _ _ _ (act q) allowed
          (λ s. ap (λ (d : Done B (Ticket × Bool)). d.after) (same s))
          λ a. search idle_rules depth 12

    simple_one :
        (op : TicketActionInput → State B → Done B (Ticket × Bool))
        (q : TicketActionInput → TicketRequest) (ticket_id : String)
        → ((i : TicketActionInput) → IsTenant info i.tenant_id → Admits info (act (q i)))
        → ((i : TicketActionInput) (s : State B) → perform P c (q i) s ≡ op i s)
        → AtMostOne P c (Admits info) (handle_simple P T r op info ticket_id)
    unfolding handle_simple
    simple_one op q ticket_id admit same =
        AtMostOne-bind P c _ _ _ (Idle-decode_action P T r) λ req.
          AtMostOne-after _ P c _ _ _ (Yields-require_tenant P T r info _) λ f tenant.
            AtMostOne-bind P c _ _ _ (Idle-now P)
              λ time. run_one _ op _ (q _) (admit _ tenant) (same _)

    pub AtMostOne-handle_complete_ticket :
        (t : String) → AtMostOne P c (Admits info) (handle_complete_ticket P T r info t)
    unfolding handle_complete_ticket perform
    AtMostOne-handle_complete_ticket t = simple_one _ complete t (λ i h. h) (λ i s. refl)

    pub AtMostOne-handle_cancel_ticket :
        (t : String) → AtMostOne P c (Admits info) (handle_cancel_ticket P T r info t)
    unfolding handle_cancel_ticket perform
    AtMostOne-handle_cancel_ticket t = simple_one _ cancel t (λ i h. h) (λ i s. refl)

    pub AtMostOne-handle_recall_ticket :
        (t : String) → AtMostOne P c (Admits info) (handle_recall_ticket P T r info t)
    unfolding handle_recall_ticket perform
    AtMostOne-handle_recall_ticket t = simple_one _ recall t (λ i h. h) (λ i s. refl)

    pub AtMostOne-handle_hold_ticket :
        (t : String) → AtMostOne P c (Admits info) (handle_hold_ticket P T r info t)
    unfolding handle_hold_ticket perform
    AtMostOne-handle_hold_ticket t = simple_one _ hold t (λ i h. h) (λ i s. refl)

    pub AtMostOne-handle_unhold_ticket :
        (t : String) → AtMostOne P c (Admits info) (handle_unhold_ticket P T r info t)
    unfolding handle_unhold_ticket perform
    AtMostOne-handle_unhold_ticket t = simple_one _ unhold t (λ i h. h) (λ i s. refl)

    pub AtMostOne-handle_no_show_ticket :
        (back : Bool) (t : String)
        → AtMostOne P c (Admits info) (handle_no_show_ticket P T r back info t)
    unfolding handle_no_show_ticket perform
    AtMostOne-handle_no_show_ticket back t =
        AtMostOne-bind P c _ _ _ (Idle-decode_action P T r) λ req.
          AtMostOne-after _ P c _ _ _ (Yields-require_tenant P T r info _) λ f tenant.
            AtMostOne-bind P c _ _ _ (Idle-now P)
              λ time. run_one _ _ _ (no_show _) tenant (λ s. refl)

    again :
        (branch : String) (f : Unit {0} → Web B (Response B))
        → ((u : Unit {0}) → AtMostOne P c (Admits info) (f u))
        → AtMostOne P c (Admits info) (require_branch_access P T r info branch >>= f)
    again branch f h = AtMostOne-bind P c _ _ _ (Idle-require_branch_access P T r info branch) h

    pub AtMostOne-handle_start_serving :
        (t : String) → AtMostOne P c (Admits info) (handle_start_serving P T r info t)
    unfolding handle_start_serving perform
    AtMostOne-handle_start_serving t = AtMostOne-bind P c _ _ _ (Idle-decode_action P T r) λ req.
        AtMostOne-after _ P c _ _ _ (Yields-require_tenant P T r info _) λ f tenant.
          AtMostOne-after _ P c _ _ _ (Yields-require_branch_access P T r info _) λ g branch.
            again _ _ λ _. again _ _ λ _. again _ _ λ _. again _ _ λ _. again _ _ λ _.
              again _ _ λ _. again _ _ λ _. AtMostOne-bind P c _ _ _ (search idle_rules) λ a.
                AtMostOne-bind P c _ _ _ (search idle_rules) λ b.
                  AtMostOne-bind P c _ _ _ (Idle-now P)
                    λ time. run_one _ _ _ (start _) (tenant, branch) (λ s. refl)

    pub AtMostOne-handle_transfer_ticket :
        (t : String) → AtMostOne P c (Admits info) (handle_transfer_ticket P T r info t)
    unfolding handle_transfer_ticket perform
    AtMostOne-handle_transfer_ticket t =
        AtMostOne-bind P c _ _ _ (Idle-decode_transfer P T r) λ req.
          AtMostOne-after _ P c _ _ _ (Yields-require_tenant P T r info _) λ f tenant.
            AtMostOne-bind P c _ _ _ (search idle_rules) λ a.
              AtMostOne-bind P c _ _ _ (search idle_rules) λ b.
                AtMostOne-after _ P c _ _ _ (Yields-require_service_access P T r info _)
                  λ g service.
                    AtMostOne-bind P c _ _ _ (Idle-now P)
                      λ time. run_one _ _ _ (transfer _) (tenant, service) (λ s. refl)
