-- ===== src/Queue/Overdue.antt =====
-- store/postgres/store.go: the first query of `AutoNoShow`.
use mathlib.Core.List.{Memᴰ}
use qms.Base.{
  ℕ, zero, suc, ◌+◌, ◌≤◌, String, Bool, true, false, not, ◌&&◌, some, List, [], ◌∷◌, ◌≡◌, All,
  All-select, All-mem, All-take, All-sort_by, take, length, Option-cases, inl, inr, and_true, arith,
}
use qms.Queue.Models.{called, status_eq, status_eq→eq}
use qms.Queue.Db.{TicketRow}
use qms.Queue.AutoNoShow.{overdue, called_before}

-- The row is in the table, called, unlocked, and its call is at least `grace` old.
pub record IsDue (locked : String → Bool) (now grace : ℕ) (rows : List TicketRow) (r : TicketRow)
    : Type 0 where
  pub member : Memᴰ r rows
  pub is_called : r.status ≡ called
  pub unlocked : locked r.ticket_id ≡ false
  pub time : ℕ
  pub called_then : r.called_at ≡ some time
  pub old : time + grace ≤ now

length-take : {A : Type 0} (n : ℕ) (xs : List A) → length (take n xs) ≤ n
length-take zero xs = omega arith
length-take (suc n) [] = omega arith
length-take (suc n) (x ∷ xs) = ground (arith, length-take n xs)

due :
    (locked : String → Bool) (now grace : ℕ) (rows : List TicketRow) (r : TicketRow)
    → Memᴰ r rows
    → (status_eq r.status called && (called_before now grace r && not (locked r.ticket_id))) ≡ true
    → IsDue locked now grace rows r
due locked now grace rows r m h = elim (Option-cases r.called_at) [
  | inl e ↦ absurd (ground (arith, h, e))
  | inr (t, e) ↦
      let at : called_before now grace r ≡ true = ground (arith, h) in
      record {
        member = m;
        is_called = status_eq→eq r.status called (and_true _ _ h).0;
        unlocked = ground (arith, h);
        time = t;
        called_then = e;
        old = ground (arith, rw e at at);
      }
]

-- The first query of the no-show job finds no more rows than the batch, and each of them is a row of
-- the table that is called, that no other transaction has locked, and whose call is at least the
-- grace old.
pub overdue-IsDue :
    (locked : String → Bool) (now grace batch : ℕ) (rows : List TicketRow)
    → All (IsDue locked now grace rows) (overdue locked now grace batch rows)
      × (length (overdue locked now grace batch rows) ≤ batch)
unfolding overdue
overdue-IsDue locked now grace batch rows = (
  All-take _ batch _ (
      All-sort_by _ _ _ (
        All-select (λ (r : TicketRow). Memᴰ r rows) (IsDue locked now grace rows) _
          (λ r m e. due locked now grace rows r m e) rows (All-mem rows))),
  length-take batch _,
)
