-- ===== src/Http/Effects/Admitted.antt =====
-- services/queue-service/internal/httpapi/auth.go: what the checks of the session let through.
use mathlib.Core.List.{Memᴰ}
use qms.Base.{
  String, true, Option, none, some, List, [], ◌∷◌, ◌≡◌, refl, sym, ◌=?◌, ◌⊎◌, inl, inr, eq_iff, any,
  Bool-cases,
}
use qms.Queue.Tx.{Platform}
use qms.Queue.Service.{
  TicketRequest, Request, create, check_in, act, sweep, call, start, complete, cancel, hold, unhold,
  recall, transfer, no_show,
}
use qms.Http.Messages.{HttpRequest, Parsers}
use qms.Http.Web.{pure}
use qms.Http.Auth.{
  AuthInfo, contains, is_empty, require_tenant, require_branch_access, require_service_access,
}
use qms.Http.Effects.Yields.{Yields, Yields-pure, Yields-respond, Yields-if}

-- The session is one of this tenant.
abbrev pub IsTenant : Option AuthInfo → String → Type 0
IsTenant info id = (a : AuthInfo) × (info ≡ some a) × (a.session.tenant_id ≡ id)

-- The user's list is empty, or the value stands in it.
abbrev pub HasAccess : (AuthInfo → List String) → Option AuthInfo → String → Type 0
HasAccess list info id = (a : AuthInfo) × (info ≡ some a) × ((list a ≡ []) ⊎ Memᴰ id (list a))

abbrev pub HasBranch : Option AuthInfo → String → Type 0
HasBranch = HasAccess (λ (a : AuthInfo). a.branches)

abbrev pub HasService : Option AuthInfo → String → Type 0
HasService = HasAccess (λ (a : AuthInfo). a.services)

abbrev pub AdmitsAction : Option AuthInfo → TicketRequest → Type 0
AdmitsAction info (call i) =
    IsTenant info i.tenant_id × HasBranch info i.branch_id × HasService info i.service_id
AdmitsAction info (start i) = IsTenant info i.tenant_id × HasBranch info i.branch_id
AdmitsAction info (transfer i) = IsTenant info i.tenant_id × HasService info i.service_id
AdmitsAction info (complete i) = IsTenant info i.tenant_id
AdmitsAction info (cancel i) = IsTenant info i.tenant_id
AdmitsAction info (hold i) = IsTenant info i.tenant_id
AdmitsAction info (unhold i) = IsTenant info i.tenant_id
AdmitsAction info (recall i) = IsTenant info i.tenant_id
AdmitsAction info (no_show i) = IsTenant info i.tenant_id

-- The requests that a session may have the handlers make. Anyone may create a ticket.
abbrev pub Admits : Option AuthInfo → Request → Type 0
Admits info (create i) = Unit {0}
Admits info (check_in request tenant branch appointment) =
    IsTenant info tenant × HasBranch info branch
Admits info (act a) = AdmitsAction info a
Admits info (sweep grace batch) = ⊥

empty_list : (list : List String) → is_empty list ≡ true → list ≡ []
empty_list [] h = refl
empty_list (x ∷ xs) h = absurd (cc (h))

contains-mem : (list : List String) (id : String) → contains list id ≡ true → Memᴰ id list
unfolding any
contains-mem [] id h = absurd (cc (h))
contains-mem (x ∷ xs) id h = elim (Bool-cases (x =? id)) [
  | inl t ↦ Memᴰ.head (sym ((eq_iff x id).0 t))
  | inr t ↦ Memᴰ.tail (contains-mem xs id (rw t at h))
]

pass-IsTenant :
    {B : Type 0} (i : AuthInfo) (t : String)
    → (i.session.tenant_id =? t) ≡ true
    → Yields {B = B} (λ u. IsTenant (some i) t) (pure tt)
pass-IsTenant i t same = Yields-pure _ tt (i, refl, (eq_iff i.session.tenant_id t).0 same)

module _ {B : Type 0} (list : AuthInfo → List String) (i : AuthInfo) (id : String) where
  unlisted-HasAccess :
      is_empty (list i) ≡ true → Yields {B = B} (λ u. HasAccess list (some i) id) (pure tt)
  unlisted-HasAccess h = Yields-pure _ tt (i, refl, inl (empty_list (list i) h))

  listed-HasAccess :
      contains (list i) id ≡ true → Yields {B = B} (λ u. HasAccess list (some i) id) (pure tt)
  listed-HasAccess h = Yields-pure _ tt (i, refl, inr (contains-mem (list i) id h))

module _ {B : Type 0} (P : Platform B) (T : Parsers) (r : HttpRequest) where
  pub Yields-require_tenant :
      (i : Option AuthInfo) (t : String) → Yields (λ u. IsTenant i t) (require_tenant P T r i t)
  unfolding require_tenant
  Yields-require_tenant none t = Yields-respond _ _
  Yields-require_tenant (some i) t = search (Yields-if, Yields-respond, pass-IsTenant i t)

  pub Yields-require_branch_access :
      (i : Option AuthInfo) (id : String)
      → Yields (λ u. HasBranch i id) (require_branch_access P T r i id)
  unfolding require_branch_access
  Yields-require_branch_access none id = Yields-respond _ _
  Yields-require_branch_access (some i) id = search (
    Yields-if,
    Yields-respond,
    unlisted-HasAccess (λ (a : AuthInfo). a.branches) i id,
    listed-HasAccess (λ (a : AuthInfo). a.branches) i id,
  )

  pub Yields-require_service_access :
      (i : Option AuthInfo) (id : String)
      → Yields (λ u. HasService i id) (require_service_access P T r i id)
  unfolding require_service_access
  Yields-require_service_access none id = Yields-respond _ _
  Yields-require_service_access (some i) id = search (
    Yields-if,
    Yields-respond,
    unlisted-HasAccess (λ (a : AuthInfo). a.services) i id,
    listed-HasAccess (λ (a : AuthInfo). a.services) i id,
  )
