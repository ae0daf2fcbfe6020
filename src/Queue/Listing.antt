-- ===== src/Queue/Listing.antt =====
-- store/postgres/store.go: the rows of `ListQueue`.
use mathlib.Core.List.{Memᴰ}
use qms.Base.{
  mem-sort_by, ◌≤◌, String, Bool, true, ◌&&◌, ◌||◌, List, [], ◌∷◌, ◌≡◌, refl, ◌=?◌, ◌⊎◌,
  if◌then◌else◌, ◌↔◌, All, All-map, All-mem, All-select, All-sort_by, mem-All, insert_by, sort_by,
  select-mem, Bool-cases, inl, inr, eq_iff, arith,
}
use qms.Queue.Models.{Status, waiting, held, status_eq, status_eq→eq}
use qms.Queue.Db.{TicketRow}
use qms.Queue.Reads.{by_created_at, queue_rows, in_branch}

-- The rows are ordered by their creation.
abbrev pub InOrder : List TicketRow → Type 0
InOrder [] = Unit
InOrder (r ∷ rs) = All (λ (x : TicketRow). r.created_at ≤ x.created_at) rs × InOrder rs

insert_by-All :
    (Q : TicketRow → Type 0) (r : TicketRow) (rs : List TicketRow)
    → Q r
    → All Q rs
    → All Q (insert_by by_created_at r rs)
unfolding insert_by
insert_by-All Q r [] p h = (p, tt)
insert_by-All Q r (x ∷ xs) p h = elim (Bool-cases (by_created_at r x)) [
  | inl t ↦ rw t (p, h)
  | inr t ↦ rw t (h.0, insert_by-All Q r xs p h.1)
]

insert_by-InOrder :
    (r : TicketRow) (rs : List TicketRow) → InOrder rs → InOrder (insert_by by_created_at r rs)
unfolding insert_by
insert_by-InOrder r [] h = (tt, tt)
insert_by-InOrder r (x ∷ xs) h = elim (Bool-cases (by_created_at r x)) [
  | inl t ↦
      let least =
        All-map (λ (y : TicketRow). x.created_at ≤ y.created_at)
          (λ (y : TicketRow). r.created_at ≤ y.created_at) (λ y k. ground (arith, t, k)) xs h.0 in
      rw t ((ground (arith, t), least), h)
  | inr t ↦ rw t (
    insert_by-All (λ (y : TicketRow). x.created_at ≤ y.created_at) r xs (ground (arith, t)) h.0,
    insert_by-InOrder r xs h.1,
  )
]

sort_by-InOrder : (rs : List TicketRow) → InOrder (sort_by by_created_at rs)
unfolding sort_by
sort_by-InOrder [] = tt
sort_by-InOrder (r ∷ rs) = insert_by-InOrder r (sort_by by_created_at rs) (sort_by-InOrder rs)

-- A waiting or held ticket of the branch, and of the service if one is named.
pub record IsListed (tenant_id branch_id service_id : String) (r : TicketRow) : Type 0 where
  pub tenant : r.tenant_id ≡ tenant_id
  pub branch : r.branch_id ≡ branch_id
  pub status : (r.status ≡ waiting) ⊎ (r.status ≡ held)
  pub service : (service_id ≡ "") ⊎ (r.service_id ≡ service_id)

abbrev is_listed : String → String → String → TicketRow → Bool
is_listed tenant_id branch_id service_id r =
    in_branch tenant_id branch_id r
    && ((status_eq r.status waiting || status_eq r.status held)
        && (if service_id =? "" then true else r.service_id =? service_id))

IsListed-to : (t b v : String) (r : TicketRow) → is_listed t b v r ≡ true → IsListed t b v r
IsListed-to t b v r h = record {
  tenant = (eq_iff r.tenant_id t).0 (ground (arith, h));
  branch = (eq_iff r.branch_id b).0 (ground (arith, h));
  status = elim (Bool-cases (status_eq r.status waiting)) [
    | inl e ↦ inl (status_eq→eq r.status waiting e)
    | inr e ↦ inr (status_eq→eq r.status held (ground (arith, h, e)))
  ];
  service = elim (Bool-cases (v =? "")) [
    | inl e ↦ inl ((eq_iff v "").0 e)
    | inr e ↦ inr ((eq_iff r.service_id v).0 (ground (arith, h, e)))
  ];
}

queued-status :
    (s : Status) → (s ≡ waiting) ⊎ (s ≡ held) → (status_eq s waiting || status_eq s held) ≡ true
queued-status s (inl e) = rw e refl
queued-status s (inr e) = rw e refl

named-service : (x v : String) → (v ≡ "") ⊎ (x ≡ v) → (if v =? "" then true else x =? v) ≡ true
named-service x v (inl e) = rw ((eq_iff v "").1 e) refl
named-service x v (inr e) = elim (Bool-cases (v =? "")) [
  | inl t ↦ rw t refl
  | inr t ↦ rw t ((eq_iff x v).1 e)
]

IsListed-from : (t b v : String) (r : TicketRow) → IsListed t b v r → is_listed t b v r ≡ true
IsListed-from t b v r h =
    let tenant = (eq_iff r.tenant_id t).1 h.tenant in
    let branch = (eq_iff r.branch_id b).1 h.branch in
    let status = queued-status r.status h.status in
    let service = named-service r.service_id v h.service in
    rw (tenant, branch, status, service) refl

-- The queue of a branch lists a ticket exactly if it is in the table, of the tenant and the branch,
-- waiting or held, and of the service if one is named; the list is in the order of creation.
pub queue_rows-IsListed :
    (tenant_id branch_id service_id : String) (rows : List TicketRow) (r : TicketRow)
    → InOrder (queue_rows tenant_id branch_id service_id rows)
      × (Memᴰ r (queue_rows tenant_id branch_id service_id rows)
          ↔ (Memᴰ r rows × IsListed tenant_id branch_id service_id r))
unfolding queue_rows
queue_rows-IsListed t b v rows r = (
  sort_by-InOrder _,
  (
    λ m.
        mem-All (λ (x : TicketRow). Memᴰ x rows × IsListed t b v x) r _ m
          (All-sort_by _ _ _ (
            All-select (λ (x : TicketRow). Memᴰ x rows)
              (λ (x : TicketRow). Memᴰ x rows × IsListed t b v x) _
              (λ x k e. (k, IsListed-to t b v x e)) rows (All-mem rows))),
    λ (m, l). mem-sort_by _ r _ (select-mem (is_listed t b v) r rows m (IsListed-from t b v r l)),
  ),
)
