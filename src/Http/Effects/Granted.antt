-- ===== src/Http/Effects/Granted.antt =====
-- services/queue-service/internal/httpapi: what a request over HTTP may do to the database.
use qms.Base.{
  ℕ, ◌≤◌, true, false, String, Bool, Option, none, some, List, [], ◌∷◌, ◌≡◌, sym, subst, inl, inr,
  ◌∙◌, if◌then◌else◌,
}
use qms.Queue.Tx.{Platform, State}
use qms.Queue.Accounts.{find_session}
use qms.Queue.Entitled.{IsLive, IsListOf, find_session-IsLive, granted_to-IsListOf}
use qms.Queue.Service.{Request}
use qms.Http.Messages.{HttpRequest, Parsers, Response}
use qms.Http.Web.{Web, Step, go, reply, ◌>>=◌, continue}
use qms.Http.Auth.{AuthInfo, session_id_from_request, is_public_endpoint, authenticate}
use qms.Http.Writes.{handle_counter_status}
use qms.Http.Routes.{
  HandlerConfig, handle_health, dispatch_action, dispatch_parts, ticket_actions_at,
  handle_ticket_actions, serve_mux, routes, response_of, handle,
}
use qms.Http.Refused.{handle_counter_status-Refuses}
use qms.Http.Effects.{
  Idle, idle_rules, Idle-pure, Idle-respond, Effect, AtMostOne, AtMostOne-Idle, AtMostOne-if,
  AtMostOne-bind,
}
use qms.Http.Effects.Queries.{
  Idle-handle_ticket_snapshot, Idle-handle_active_ticket, Idle-handle_events, Idle-handle_counters,
  Idle-handle_services, Idle-handle_get_ticket, Idle-handle_ticket_events, Idle-handle_queues,
}
use qms.Http.Effects.Admitted.{Admits}
use qms.Http.Effects.Handlers.{
  AtMostOne-handle_tickets, AtMostOne-handle_call_next, AtMostOne-handle_appointment_checkin,
  AtMostOne-handle_complete_ticket, AtMostOne-handle_cancel_ticket, AtMostOne-handle_recall_ticket,
  AtMostOne-handle_hold_ticket, AtMostOne-handle_unhold_ticket, AtMostOne-handle_no_show_ticket,
  AtMostOne-handle_start_serving, AtMostOne-handle_transfer_ticket,
}
use qms.Http.Effects.Origin.{Passed, IsAuthenticated, At-authenticate}

module _ {B : Type 0} (P : Platform B) (T : Parsers) (h : HandlerConfig) (r : HttpRequest) where
  module _ (i : Option AuthInfo) where
    Idle-handle_counter_status : Idle (handle_counter_status P T r i)
    Idle-handle_counter_status = record {
      at = λ s. let (x, answer, error, same) = (handle_counter_status-Refuses P T r i).at s in same;
    }

    Idle-handle_health : Idle (handle_health P T h r)
    unfolding handle_health
    Idle-handle_health = search idle_rules

    only : {m : Web B (Response B)} → Idle m → AtMostOne P h.store (Admits i) m
    only im = AtMostOne-Idle P h.store (Admits i) _ im

    choose :
        (b : Bool) (m n : Web B (Response B))
        → AtMostOne P h.store (Admits i) m
        → AtMostOne P h.store (Admits i) n
        → AtMostOne P h.store (Admits i) (if b then m else n)
    choose b m n om on = AtMostOne-if P h.store (Admits i) b m n om on

    one_dispatch_action :
        (t a : String) → AtMostOne P h.store (Admits i) (dispatch_action P T h r i t a)
    unfolding dispatch_action
    one_dispatch_action t a =
        (choose _ _ _ (AtMostOne-handle_start_serving P T r i h.store t) (
          choose _ _ _ (AtMostOne-handle_complete_ticket P T r i h.store t) (
            choose _ _ _ (AtMostOne-handle_cancel_ticket P T r i h.store t) (
              choose _ _ _ (AtMostOne-handle_recall_ticket P T r i h.store t) (
                choose _ _ _ (AtMostOne-handle_hold_ticket P T r i h.store t) (
                  choose _ _ _ (AtMostOne-handle_unhold_ticket P T r i h.store t) (
                    choose _ _ _ (AtMostOne-handle_transfer_ticket P T r i h.store t) (
                      choose _ _ _
                        (AtMostOne-handle_no_show_ticket P T r i h.store h.no_show_return_to_queue
                          t)
                        (only (Idle-respond _))))))))))

    one_dispatch_parts :
        (t : String) (parts : List String)
        → AtMostOne P h.store (Admits i) (dispatch_parts P T h r i t parts)
    unfolding dispatch_parts
    one_dispatch_parts t [] = only (search idle_rules depth 12)
    one_dispatch_parts t (w ∷ []) =
        only (search (idle_rules, Idle-handle_ticket_events P T r) depth 12)
    one_dispatch_parts t (w ∷ a ∷ []) =
        AtMostOne-bind P h.store _ _ _ (search idle_rules)
          λ u. choose _ _ _ (one_dispatch_action t a) (only (Idle-respond _))
    one_dispatch_parts t (w ∷ a ∷ x ∷ more) = only (search idle_rules depth 12)

    one_ticket_actions_at :
        (parts : List String) → AtMostOne P h.store (Admits i) (ticket_actions_at P T h r i parts)
    unfolding ticket_actions_at
    one_ticket_actions_at [] = only (Idle-respond _)
    one_ticket_actions_at (t ∷ []) =
        only (search (idle_rules, Idle-handle_get_ticket P T r) depth 12)
    one_ticket_actions_at (t ∷ w ∷ more) =
        AtMostOne-bind P h.store _ _ _ (search idle_rules) λ u. one_dispatch_parts t (w ∷ more)

    one_handle_ticket_actions : AtMostOne P h.store (Admits i) (handle_ticket_actions P T h r i)
    unfolding handle_ticket_actions
    one_handle_ticket_actions = one_ticket_actions_at _

    one_serve_mux : AtMostOne P h.store (Admits i) (serve_mux P T h r i)
    unfolding serve_mux
    one_serve_mux =
        (choose _ _ _ (only Idle-handle_health) (
          choose _ _ _ (only (Idle-pure _)) (
            choose _ _ _ (AtMostOne-handle_tickets P T r i h.store) (
              choose _ _ _ (AtMostOne-handle_call_next P T r i h.store) (
                choose _ _ _ (only (Idle-handle_active_ticket P T r i)) (
                  choose _ _ _ (only (Idle-handle_ticket_snapshot P T r i)) (
                    choose _ _ _ one_handle_ticket_actions (
                      choose _ _ _ (only (Idle-handle_queues P T r i)) (
                        choose _ _ _ (AtMostOne-handle_appointment_checkin P T r i h.store) (
                          choose _ _ _ (only (Idle-handle_events P T r i)) (
                            choose _ _ _ (only (Idle-handle_counters P T r i)) (
                              choose _ _ _ (only Idle-handle_counter_status) (
                                choose _ _ _ (only (Idle-handle_services P T r))
                                  (only (Idle-respond _)))))))))))))))

  -- A session that is live at the clock's reading, of the user whose lists these are. Without one only
  -- a public endpoint is reached.
  abbrev pub IsEntitled : State B → Option AuthInfo → Type 0
  IsEntitled s none = is_public_endpoint r ≡ true
  IsEntitled s (some i) =
      IsLive s.db (session_id_from_request P T r) (P.clock s.tick) i.session
      × IsListOf i.session.user_id s.db.user_branch_access i.branches
      × IsListOf i.session.user_id s.db.user_service_access i.services

  -- The request to the store that a session behind this HTTP request may make.
  abbrev pub IsGranted : State B → Request → Type 0
  IsGranted s q = (info : Option AuthInfo) × IsEntitled s info × Admits info q

  entitled :
      (s : State B) (info : Option AuthInfo)
      → IsAuthenticated P T r s.db (P.clock s.tick) info
      → IsEntitled s info
  entitled s none public = public
  entitled s (some i) (live, branches, services) = (
    find_session-IsLive s.db _ _ i.session live,
    subst (IsListOf i.session.user_id s.db.user_branch_access) (sym branches)
        (granted_to-IsListOf i.session.user_id s.db.user_branch_access),
    subst (IsListOf i.session.user_id s.db.user_service_access) (sym services)
        (granted_to-IsListOf i.session.user_id s.db.user_service_access),
  )

  after_authentication :
      (s s' : State B) (x : Step B (Option AuthInfo))
      → s'.db ≡ s.db
      → Passed (IsAuthenticated P T r s.db (P.clock s.tick)) x
      → Effect P h.store (IsGranted s) s.db (continue x (serve_mux P T h r) s').1.db
  after_authentication s s' (reply e) same p = inl same
  after_authentication s s' (go i) same p = elim ((one_serve_mux i).at s') [
    | inl q ↦ inl (q ∙ same)
    | inr (q, before, at, admitted, made) ↦
        inr (q, before, at ∙ same, (i, entitled s i p, admitted), made)
  ]

  -- An HTTP request changes the database by at most one request to the store. That request is the
  -- creation of a ticket, or it is made for a session that the request's tables hold, that has not
  -- ended by the clock's reading, and whose user is of the tenant that the request names. Calls,
  -- check-ins and starts of serving also name a branch, calls and transfers a service, that the rows
  -- grant to the user, unless they grant none to that user.
  pub handle-IsGranted : (s : State B) → Effect P h.store (IsGranted s) s.db (handle P T h r s).1.db
  unfolding handle routes ◌>>=◌
  handle-IsGranted s =
      let (same, p) = (At-authenticate P T r s).here in
      after_authentication s (authenticate P T r s).1 (authenticate P T r s).0 same p

  after_refusal :
      (s s' : State B) (x : Step B (Option AuthInfo))
      → ((i : Option AuthInfo) → IsAuthenticated P T r s.db (P.clock s.tick) i → ⊥)
      → s'.db ≡ s.db
      → Passed (IsAuthenticated P T r s.db (P.clock s.tick)) x
      → let y = continue x (serve_mux P T h r) s' in
        (400 ≤ (response_of y.0).status) × (y.1.db ≡ s.db)
  after_refusal s s' (reply e) nobody same p = (p, same)
  after_refusal s s' (go i) nobody same p = absurd (nobody i p)

  no_session :
      (s : State B)
      → is_public_endpoint r ≡ false
      → ((time : ℕ) → find_session (session_id_from_request P T r) time s.db ≡ none)
      → (i : Option AuthInfo) → IsAuthenticated P T r s.db (P.clock s.tick) i
      → ⊥
  no_session s private dead none public = absurd (cc (public, private))
  no_session s private dead (some i) (live, branches, services) =
      absurd (cc (live, dead (P.clock s.tick)))

  -- On an endpoint that is not public, a request whose session is not live at any time gets an error,
  -- and the database stays as it was.
  pub handle_unauthorized :
      (s : State B)
      → is_public_endpoint r ≡ false
      → ((time : ℕ) → find_session (session_id_from_request P T r) time s.db ≡ none)
      → (400 ≤ (handle P T h r s).0.status) × ((handle P T h r s).1.db ≡ s.db)
  unfolding handle routes ◌>>=◌
  handle_unauthorized s private dead =
      let (same, p) = (At-authenticate P T r s).here in
      after_refusal s (authenticate P T r s).1 (authenticate P T r s).0 (no_session s private dead)
        same p
