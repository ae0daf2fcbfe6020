-- ===== src/Admin/Approvals.antt =====
-- services/admin-service/internal/httpapi/handler.go: what becomes of an approval.
use qms.Base.{
  ℕ, ◌+◌, String, Bool, true, false, ◌&&◌, Option, none, some, List, [], ◌∷◌, ◌=?◌, ◌≡◌, refl, ap,
  ◌∙◌, if◌then◌else◌, Bool-cases, Option-cases, inl, inr, any, find, update, find-mem, any-mem,
}
use qms.Queue.Models.{failure}
use qms.Queue.Db.{Db, ApprovalRow}
use qms.Queue.Accounts.{Session}
use qms.Queue.Tx
use qms.Queue.Tx.{Platform, State, next_tick, statement}
use qms.Queue.Tx.Quiet.{IsQuiet, statement_quiet, query_quiet}
use qms.Auth.Run
use qms.Auth.Run.{value, ended}
use qms.Auth.Run.Failures.{ended_bind}
use qms.Admin.Rows.{Error, approval_not_found, approval_not_pending, other, null_if_empty}
use qms.Admin.Store.{is_pending, has_id, approve_pending, approve_request, get_approval, scanned}
use qms.Admin.Handlers.{
  Payloads, Tools, HttpRequest, Response, approve, apply_approval, approval_error, internal_error,
}

-- No approval with this id waits.
abbrev pub IsSettled : {B : Type 0} → String → Db B → Type 0
IsSettled id d = any (is_pending id) d.approval_requests ≡ false

abbrev pub approved_row : String → ℕ → ApprovalRow → ApprovalRow
approved_row approver now a = record a {
  status = "approved";
  approved_by = null_if_empty approver;
  approved_at = some now;
}

not_pending : (same : Bool) → (same && false) ≡ false
not_pending true = refl
not_pending false = refl

settled_rows :
    (id approver : String) (now : ℕ) (rows : List ApprovalRow)
    → any (is_pending id) (update (is_pending id) (approved_row approver now) rows) ≡ false
unfolding any update
settled_rows id approver now [] = refl
settled_rows id approver now (a ∷ rows) = elim (Bool-cases (is_pending id a)) [
  | inl e ↦ rw e (rw (not_pending (a.approval_id =? id)) (settled_rows id approver now rows))
  | inr e ↦ rw e (rw e (settled_rows id approver now rows))
]

kept_rows :
    (id approver : String) (now : ℕ) (rows : List ApprovalRow)
    → any (is_pending id) rows ≡ false
    → update (is_pending id) (approved_row approver now) rows ≡ rows
unfolding any update
kept_rows id approver now [] h = refl
kept_rows id approver now (a ∷ rows) h = elim (Bool-cases (is_pending id a)) [
  | inl e ↦ absurd (cc (rw e at h))
  | inr e ↦ rw e (ap (λ (r : List ApprovalRow). a ∷ r) (kept_rows id approver now rows (rw e at h)))
]

found_approved :
    (id approver : String) (now : ℕ) (rows : List ApprovalRow) (a : ApprovalRow)
    → find (has_id id) rows ≡ some a
    → a.status ≡ "pending"
    → find (has_id id) (update (is_pending id) (approved_row approver now) rows)
      ≡ some (approved_row approver now a)
unfolding find update
found_approved id approver now [] a h w = absurd (cc (h))
found_approved id approver now (x ∷ rows) a h w = elim (Bool-cases (has_id id x)) [
  | inl e ↦
      let same : x ≡ a = cc (rw e at h) in
      let waits : is_pending id x ≡ true =
        rw (e, ap (λ (y : ApprovalRow). y.status) same ∙ w) refl in
      rw waits (rw e (ap (λ (y : ApprovalRow). some (approved_row approver now y)) same))
  | inr e ↦
      let passes : is_pending id x ≡ false = rw e refl in
      rw passes (rw e (found_approved id approver now rows a (rw e at h) w))
]

waiting :
    (id : String) (rows : List ApprovalRow) (a : ApprovalRow)
    → find (has_id id) rows ≡ some a
    → a.status ≡ "pending"
    → any (is_pending id) rows ≡ true
waiting id rows a h w =
    let (m, e) = find-mem (has_id id) rows a h in any-mem (is_pending id) rows a m (rw (e, w) refl)

module _ {B : Type 0} (P : Platform B) (id approver : String) where
  refused_at :
      (s : State B)
      → IsSettled id s.db
      → (e : Error) × ((approve_request P id approver s).0 ≡ ended e)
        × ((approve_request P id approver s).1.db ≡ s.db)
  unfolding approve_request approve_pending Run.◌>>=◌ Run.ask Run.stop statement Tx.query
  refused_at s h =
      let same =
        ap (λ (rows : List ApprovalRow). record s.db { approval_requests = rows })
          (kept_rows id approver (P.clock s.tick) s.db.approval_requests h) in
      elim (Bool-cases (P.fails s.tick)) [
        | inl e ↦ (other failure, rw e refl, rw e refl)
        | inr e ↦ elim (Bool-cases (P.fails (s.tick + 1))) [
          | inl f ↦ (other failure, rw (e, h) (rw f refl), rw (e, h) (rw f same))
          | inr f ↦ (
            if any (has_id id) (
                  update (is_pending id) (approved_row approver (P.clock s.tick))
                    s.db.approval_requests)
                then approval_not_pending
                else approval_not_found,
            rw (e, h) (rw f refl),
            rw (e, h) (rw f same),
          )
        ]
      ]

  approve_waiting :
      (quiet : IsQuiet P) (s : State B)
      → any (is_pending id) s.db.approval_requests ≡ true
      → approve_request P id approver s ≡ (
        value tt,
        record { db = (approve_pending id approver (P.clock s.tick) s.db).1; tick = s.tick + 1 },
      )
  unfolding approve_request approve_pending Run.◌>>=◌ Run.ask Run.pure
  approve_waiting quiet s h = rw (statement_quiet P quiet _ s, h) refl

unnamed : (now : ℕ) (a : ApprovalRow) → scanned (some (approved_row "" now a)) ≡ none
unnamed now a = elim (Option-cases a.created_by) [ inl e ↦ simp e refl | inr (b, e) ↦ simp e refl ]

module _ {B : Type 0} (P : Platform B) (id : String) where
  unreadable :
      (quiet : IsQuiet P) (s : State B) (a : ApprovalRow)
      → find (has_id id) s.db.approval_requests ≡ some a
      → scanned (some a) ≡ none
      → get_approval P id s ≡ (ended (other failure), next_tick s)
  unfolding get_approval Run.◌>>=◌ Run.ask Run.stop
  unreadable quiet s a h k = rw (query_quiet P quiet _ s) (rw h (rw k refl))

module _ {B : Type 0} (P : Platform B) (J : Payloads) (T : Tools) (r : HttpRequest)
    (session : Option Session) (id : String) where
  approve_refused :
      (s : State B)
      → IsSettled id s.db
      → (e : Response) × (s' : State B) × (approve P J T r session id s ≡ (ended e, s'))
        × (s'.db ≡ s.db)
  unfolding approve Run.or_end
  approve_refused s h =
      let approver = P.trim_space (r.header "X-User-ID") in
      let (e, q, same) = refused_at P id approver s h in
      let answered = Run.or_end (approval_error P J T r) (approve_request P id approver) in
      (
        approval_error P J T r e,
        (answered s).1,
        ended_bind answered _ (approval_error P J T r e) s
            (ap (Run.map_ended (approval_error P J T r)) q),
        same,
      )

  -- After the `UPDATE` of `ApproveRequest` for an id, on any tables `d`, and whatever happens to the
  -- other tables since, an approval of that id is refused, and the tables are as they were: a change
  -- that waits is applied at most once.
  pub approve_once :
      (approver : String) (now : ℕ) (d : Db B) (s : State B)
      → s.db.approval_requests ≡ (approve_pending id approver now d).1.approval_requests
      → (e : Response) × (s' : State B) × (approve P J T r session id s ≡ (ended e, s'))
        × (s'.db ≡ s.db)
  unfolding approve_pending
  approve_once approver now d s same =
      approve_refused s
        (ap (any (is_pending id)) same ∙ settled_rows id approver now d.approval_requests)

  -- If the request has no `X-User-ID`, on a database that does not fail, then the approval of a
  -- request that waits is answered with an internal error, and of the tables only that request is
  -- changed: it is approved, by nobody, and its change is not applied.
  pub approve_unnamed :
      (quiet : IsQuiet P) (s : State B) (a : ApprovalRow)
      → find (has_id id) s.db.approval_requests ≡ some a
      → a.status ≡ "pending"
      → P.trim_space (r.header "X-User-ID") ≡ ""
      → (s' : State B) × (approve P J T r session id s
          ≡ (ended (internal_error P J T r "apply approval failed"), s'))
        × (s'.db ≡ (approve_pending id "" (P.clock s.tick) s.db).1)
        × (find (has_id id) s'.db.approval_requests ≡ some (approved_row "" (P.clock s.tick) a))
  unfolding approve apply_approval Run.◌>>=◌ Run.or_end approve_pending update
  approve_unnamed quiet s a h w none_given =
      let updated = found_approved id "" (P.clock s.tick) s.db.approval_requests a h w in
      let after : State B = record {
        db = (approve_pending id "" (P.clock s.tick) s.db).1;
        tick = s.tick + 1;
      } in
      let approved : approve_request P id (P.trim_space (r.header "X-User-ID")) s
          ≡ (value tt, after) =
        ap (λ (by : String). approve_request P id by s) none_given
        ∙ approve_waiting P id "" quiet s (waiting id s.db.approval_requests a h w) in
      (
        next_tick after,
        rw approved (
            rw
              (unreadable P id quiet after (approved_row "" (P.clock s.tick) a) updated
                (unnamed (P.clock s.tick) a))
              refl),
        refl,
        updated,
      )
